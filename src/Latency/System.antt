-- ===== src/Latency/System.antt =====
-- The threads of client/test_latency.c, interleaved in any order, with their barrier. The barrier is
-- that of POSIX: it lets the threads pass when as many as it was made for wait, and tells one of
-- them that it is the serial one.
use freelite.Base.{ℕ, ◌<◌, ℤ, pos, List, [], ◌++◌, ◌≡◌}
use freelite.Cluster.{update}
use freelite.Latency.Thread.{Wait, Pc, starting, waiting, Event, Move, after, serial_after}

-- `test_key`, where the threads stand, and what they have done, the latest first.
pub record System : Type 0 where
  pub test_key : ℤ
  pub pc : ℕ → Pc
  pub log : List Event

-- After the loop of `pthread_create` in `main`.
abbrev pub started : System
started = record { test_key = pos 0; pc = λ t. starting; log = [] }

module _ (nr_threads : ℕ) where
  pub data Step (s : System) : System → Type 0 where
    acts :
        (t : ℕ) {es : List Event} {key : ℤ} {p : Pc}
        → t < nr_threads
        → Move nr_threads t s.test_key (s.pc t) es key p
        → Step s (record { test_key = key; pc = update s.pc t p; log = es ++ s.log })
    passes :
        (w : Wait) (serial : ℕ)
        → serial < nr_threads
        → ((t : ℕ) → t < nr_threads → s.pc t ≡ waiting w)
        → Step s (record s { pc = update (λ t. after w) serial (serial_after w) })

  pub data Reach : System → Type 0 where
    begins : Reach started
    later : {s s' : System} → Reach s → Step s s' → Reach s'
