-- ===== src/Latency/Safety.antt =====
-- What the barrier of client/test_latency.c gives its threads, and what it does not.
use freelite.Base.{
  All-append, ℕ, zero, suc, ◌+◌, ◌*◌, ◌≤◌, ◌<◌, ℤ, pos, List, [], ◌∷◌, All, some, ◌≡◌, ◌⊎◌, inl,
  inr, refl, sym, ap, ◌∙◌, arith, ℕ_discrete, get_elem?, to_u32,
}
use mathlib.Core.Path.{subst}
use freelite.Cluster.{update, update_same, update_other}
use freelite.Latency.Thread.{
  first, Pc, starting, failed, waiting, writing, Event, writes, stores, Move, alloc_ok, alloc_fails,
  alloc_remote, write, write_rate, written, read, read_rate, read_all, free, after, serial_after,
  testsize,
}
use freelite.Latency.System.{System, started, acts, passes, Reach, begins, later}
use freelite.Latency.Events.{Unallocated, Uses, allocations, allocations-Unallocated, to_u32-zero}
use freelite.Latency.Phases.{Early, early, pending, keyed, Reach-Phase}

-- The entry of `per_rps`, an array of seven doubles for each thread.
abbrev pub InArray : ℕ → Event → Type 0
InArray n (stores i) = i < 7 * n
InArray n _ = Unit

module _ (n : ℕ) where
  -- Threads interleave in any order. Remote memory is allocated at most once. Before that no thread
  -- reads, and every write names the handle 0; afterwards every read names the handle that the
  -- allocation has given, and every write names it or 0.
  pub reads_use_the_key :
      {s : System}
      → Reach n s
      → ((allocations s.log ≡ []) × All Unallocated s.log)
        ⊎ ((v : ℤ) × (allocations s.log ≡ v ∷ []) × All (Uses v) s.log)
  unfolding allocations
  reads_use_the_key {s} r = elim (Reach-Phase n r) [
    | early zero_ quiet all ↦ inl (rw quiet refl, rw quiet tt)
    | pending a few at_ zero_ before all ↦ inl (allocations-Unallocated s.log before, before)
    | keyed v is_v one uses all ↦ inr (v, one, uses)
  ]

  -- When one thread has failed to allocate its shared memory, no thread has called for remote memory
  -- or written a rate, and each of them has failed, too, or stands before the barrier.
  pub failed_thread_blocks :
      {s : System} (t : ℕ)
      → t < n
      → s.pc t ≡ failed
      → Reach n s
      → (s.log ≡ []) × ((u : ℕ) → u < n → Early (s.pc u))
  failed_thread_blocks {s = s} t small gone r = elim (Reach-Phase n r) [
    | early zero_ quiet all ↦ (quiet, all)
    | pending a few at_ zero_ before all ↦ elim (ℕ_discrete a t) [
      | yes same ↦ cc (at_, gone, ap s.pc same)
      | no other ↦ absurd (rw gone at (all t other small))
    ]
    | keyed v is_v one uses all ↦ absurd (rw gone at (all t small))
  ]

  slot_in_array : (i t size : ℕ) → t < n → get_elem? testsize i ≡ some size → i * n + t < 7 * n
  slot_in_array zero t size small found = omega arith
  slot_in_array (suc zero) t size small found = omega arith
  slot_in_array (suc (suc zero)) t size small found = omega arith
  slot_in_array (suc (suc (suc zero))) t size small found = omega arith
  slot_in_array (suc (suc (suc (suc zero)))) t size small found = omega arith
  slot_in_array (suc (suc (suc (suc (suc zero))))) t size small found = omega arith
  slot_in_array (suc (suc (suc (suc (suc (suc zero)))))) t size small found = omega arith
  slot_in_array (suc (suc (suc (suc (suc (suc (suc i))))))) t size small found = cc

  Move-InArray :
      {t : ℕ} {key key' : ℤ} {es : List Event} {p p' : Pc}
      → t < n
      → Move n t key p es key' p'
      → All (InArray n) es
  Move-InArray small alloc_ok = tt
  Move-InArray small alloc_fails = tt
  Move-InArray small (alloc_remote v) = (tt, tt)
  Move-InArray small (write i j size found more) = (tt, tt)
  Move-InArray {t} small (write_rate i j size found over) = (slot_in_array i t size small found, tt)
  Move-InArray small (written i j over) = tt
  Move-InArray small (read i j size found more) = (tt, tt)
  Move-InArray {t} small (read_rate i j size found over) = (slot_in_array i t size small found, tt)
  Move-InArray small (read_all i j over) = tt
  Move-InArray small free = tt

  -- Every entry of `per_rps` that a thread writes is one of the seven for each thread that `main`
  -- has allocated.
  pub stores_in_bounds : {s : System} → Reach n s → All (InArray n) s.log
  stores_in_bounds begins = tt
  stores_in_bounds (later {s = s} r (acts t {es} small move)) =
      All-append (InArray n) es s.log (Move-InArray small move) (stores_in_bounds r)
  stores_in_bounds (later r (passes w serial small wait)) = stores_in_bounds r

  -- The first `m` threads wait at the barrier, the others have not begun.
  record Gathered (m : ℕ) (s : System) : Type 0 where
    reached : Reach n s
    quiet : s.log ≡ []
    keyless : s.test_key ≡ pos 0
    here : (t : ℕ) → t < m → s.pc t ≡ waiting first
    away : (t : ℕ) → m ≤ t → s.pc t ≡ starting

  gather : (m : ℕ) → m ≤ n → (s : System) × Gathered m s
  gather zero few = (
    started,
    record {
      reached = begins;
      quiet = refl;
      keyless = refl;
      here = λ t e. absurd (omega arith);
      away = λ t _. refl;
    },
  )
  gather (suc m) few =
      let (s, g) = gather m (omega arith) in
      (
        record s { pc = update s.pc m (waiting first) },
        record {
          reached = later g.reached (
              acts m (omega arith) (
                subst (λ p. Move n m s.test_key p [] s.test_key (waiting first))
                  (sym (g.away m (omega arith))) alloc_ok));
          quiet = g.quiet;
          keyless = g.keyless;
          here = λ t e. elim (ℕ_discrete m t) [
            | yes same ↦ update_same s.pc m t (waiting first) same
            | no other ↦ update_other s.pc m t (waiting first) other ∙ g.here t (omega arith)
          ];
          away = λ t e.
              update_other s.pc m t (waiting first) (λ same. omega arith) ∙ g.away t (omega arith);
        },
      )

  -- With two threads or more there is a run in which the first write of all names the handle 0, since
  -- the memory is allocated after the barrier.
  pub writes_may_miss_the_key : 1 < n → (s : System) × Reach n s × (s.log ≡ writes 0 8 ∷ [])
  writes_may_miss_the_key two =
      let (s, g) = gather n (omega arith) in
      let opened : System = record s { pc = update (λ t. after first) 0 (serial_after first) } in
      (
        record opened {
          pc = update opened.pc 1 (writing 0 1);
          log = writes (to_u32 s.test_key) 8 ∷ s.log;
        },
        later (later g.reached (passes first 0 (omega arith) g.here)) (
            acts 1 two (
              subst
                (λ p.
                  Move n 1 s.test_key p (writes (to_u32 s.test_key) 8 ∷ []) s.test_key
                    (writing 0 1))
                (sym (update_other (λ t. after first) 0 1 (serial_after first) (omega arith)))
                (write 0 0 8 refl (omega arith)))),
        rw (g.keyless, g.quiet, to_u32-zero) refl,
      )
