-- ===== src/Threads/Tests.antt =====
-- The theorems about the threads at concrete runs: two routers, the first with two threads.
use freelite.Base.{
  ℕ, ◌+◌, ◌/◌, ℤ, pos, ℤ_discrete, Bytes, Bytes_discrete, ℕ_discrete, incr, List, [], ◌∷◌, some,
  ◌≡◌, refl, ap, arith, int_max, ◌<◌, ◌++◌, pos-ne-negsuc, ◌≢◌, minus_one, ◌⊎◌, none, length,
  Option-cases, sym,
}
use freelite.Base.UnorderedMap.{find, insert}
use freelite.Vcm.{handle, get_new_vid, get_nid_by_vid}
use freelite.Threads.Worker.{Move, idle, unlock, joins, asks, query, blocked, returning, critical}
use mathlib.Core.Path.{subst}
use freelite.Threads.Calm.{Calm-Reach, stays, moved_on}
use freelite.Threads.Safety.{mutual_exclusion, given_once, told_right, remembered, returned}
use freelite.Threads.Release.{Releases, lock_is_released}
use freelite.Threads.Calm.Order.{ReachedBy, interleavings_are_sequential}
use freelite.Cluster.{Event, update}
use freelite.Threads.Schedule.{Turn, begin, go, answer, Run, run}

abbrev node : ℕ → ℤ
node i = pos (3 + i)

-- Threads 0 and 1 belong to router 0, thread 2 to router 1.
abbrev host_of : ℕ → ℕ
host_of t = t / 2

abbrev sockets : ℕ → ℤ
sockets i = pos 4

connected : (i : ℕ) → sockets i ≢ minus_one
connected i = pos-ne-negsuc

abbrev here : Bytes
here = 1 ∷ []

abbrev there : Bytes
there = 2 ∷ []

-- Both routers ask for a vid at the same time, and the second one is answered first; thread 1 waits
-- for the lock that thread 0 holds.
abbrev crossed : List Turn
crossed =
    begin 0 (query (joins here))
    ∷ begin 2 (query (joins there))
    ∷ begin 1 (query (asks (pos 1)))
    ∷ go 0
    ∷ go 2
    ∷ go 1
    ∷ go 0
    ∷ go 2
    ∷ go 0
    ∷ go 2
    ∷ answer 1
    ∷ answer 0
    ∷ go 0
    ∷ go 2
    ∷ go 0
    ∷ go 2
    ∷ []

abbrev both : Run node host_of sockets
both = run node host_of sockets crossed

-- Thread 0 returns the vid 2, and its router remembers it already; the lock is still held.
both_lem :
    (both.steps ≡ 2)
    × (both.last.pc 0 ≡ returning (query (joins here)) (pos 2))
    × (both.last.pc 1 ≡ blocked (query (asks (pos 1))))
    × (find Bytes_discrete here (both.last.host 0).routing.cid_vid_map ≡ some (pos 2))
    × ((both.last.host 0).holder ≡ some 0)
unfolding run Option-cases handle get_new_vid find insert incr Bytes_discrete ℤ_discrete ℕ_discrete
both_lem = (refl, refl, refl, refl, refl)

few_answers : both.steps < int_max
few_answers = omega (arith, both_lem.0)

mutual_exclusion_example : ◌≡◌ {A = ℕ} 0 0
mutual_exclusion_example =
    mutual_exclusion node host_of sockets (Calm-Reach node host_of sockets both.calm) few_answers 0
      0 refl (ap critical both_lem.1) (ap critical both_lem.1)

given_once_example : (◌≡◌ {A = ℕ} 0 0) × (here ≡ here)
given_once_example =
    given_once node host_of sockets (Calm-Reach node host_of sockets both.calm) few_answers
      (returned 0 refl both_lem.1 pos-ne-negsuc) (remembered both_lem.3)

lock_is_released_example : (host_of 0 ≡ 0) × Releases node host_of 0 6 both.last
lock_is_released_example =
    lock_is_released node host_of sockets 0 0 (Calm-Reach node host_of sockets both.calm)
      few_answers both_lem.4

-- Thread 0 then leaves the lock.
unlocked :
    Move
      (node 0)
      0
      (both.last.host 0)
      (both.last.pc 0)
      (record (both.last.host 0) { holder = none })
      idle
unlocked =
    subst
      (λ p. Move (node 0) 0 (both.last.host 0) p (record (both.last.host 0) { holder = none }) idle)
      (sym both_lem.1) (unlock (query (joins here)) (pos 2))

interleavings_are_sequential_example :
    let s' = record both.last {
      host = update both.last.host 0 (record (both.last.host 0) { holder = none });
      pc = update both.last.pc 0 idle;
    } in
    (es : List Event) × (more : List Event) × (length es ≡ both.steps)
    × ReachedBy node host_of sockets connected both.last es
    × ReachedBy node host_of sockets connected s' (es ++ more)
interleavings_are_sequential_example =
    interleavings_are_sequential node host_of sockets connected few_answers both.calm
      (moved_on 0 stays unlocked)

-- Thread 0 returns, and thread 1 asks for the node of the vid that router 1 was given.
abbrev on_ : Run node host_of sockets
on_ =
    run node host_of sockets (crossed ++ (go 0 ∷ go 1 ∷ go 1 ∷ go 1 ∷ answer 0 ∷ go 1 ∷ go 1 ∷ []))

on_lem :
    (on_.steps ≡ 3)
    × (on_.last.pc 1 ≡ returning (query (asks (pos 1))) (pos 4))
    × (find Bytes_discrete there (on_.last.host 1).routing.cid_vid_map ≡ some (pos 1))
unfolding run Option-cases handle get_new_vid get_nid_by_vid find insert incr Bytes_discrete
    ℤ_discrete ℕ_discrete
on_lem = (refl, refl, refl)

told_right_example : (pos 4 ≡ minus_one) ⊎ (pos 4 ≡ node 1)
told_right_example =
    told_right node host_of sockets (Calm-Reach node host_of sockets on_.calm)
      (omega (arith, on_lem.0)) 1 (pos 4) (remembered on_lem.2) on_lem.1
