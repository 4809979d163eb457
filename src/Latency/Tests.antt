-- ===== src/Latency/Tests.antt =====
-- The theorems about client/test_latency.c at short runs.
use freelite.Base.{
  ℕ, ◌≤◌, ◌^◌, ℤ, pos, some, map, to_i32, [], ◌∷◌, All, ◌≡◌, ◌⊎◌, refl, arith, to_u32, ℕ_discrete,
}
use freelite.Cluster.{update_same}
use freelite.Latency.Thread.{waiting, first, allocates, writes, alloc_ok, alloc_remote, write}
use freelite.Latency.System.{System, started, Reach, begins, later, acts, passes}
use freelite.Latency.Events.{Unallocated, Uses, allocations}
use freelite.Latency.Safety.{reads_use_the_key}
use freelite.Latency.Options.{
  Options, remote_nid, thread, read_options, parse, accept, per_rps_bytes, info_bytes, fill_info,
  shm_name,
}
use freelite.Latency.Options.Setup.{HasCpu, NameFits, Apart, InBytes, accepted_threads_fit}

-- The only thread allocates its memory, passes the barrier, allocates remote memory and writes.
abbrev written_once : (s : System) × Reach 1 s
unfolding ℕ_discrete
written_once = (
  _,
  later
      (later
        (later (later begins (acts 0 (omega arith) alloc_ok)) (
          passes first 0 (omega arith)
            (λ t e. update_same started.pc 0 t (waiting first) (omega arith))))
        (acts 0 (omega arith) (alloc_remote (pos 5))))
      (acts 0 (omega arith) (write 0 0 8 refl (omega arith))),
)

written_once_lem : written_once.0.log ≡ writes 5 8 ∷ allocates (pos 5) ∷ []
unfolding to_u32 written_once ℕ_discrete
written_once_lem = refl

reads_use_the_key_example :
    ((allocations written_once.0.log ≡ []) × All Unallocated written_once.0.log)
    ⊎ ((v : ℤ) × (allocations written_once.0.log ≡ v ∷ []) × All (Uses v) written_once.0.log)
reads_use_the_key_example = reads_use_the_key 1 written_once.1

abbrev options : Options
options = record { remote_node = pos 2; nr_threads = pos 1 }

accepted : read_options (remote_nid 2 ∷ thread 1 ∷ []) ≡ some options
unfolding read_options parse accept to_i32
accepted = refl

accepted_threads_fit_example :
    ((nid : ℕ) × (pos 2 ≡ pos nid) × (1 ≤ nid) × (nid ≤ 16))
    × (1 ≤ 56)
    × All HasCpu (fill_info (pos 2) 0 1)
    × All NameFits (fill_info (pos 2) 0 1)
    × Apart (map shm_name (fill_info (pos 2) 0 1))
    × All (InBytes (per_rps_bytes options)) written_once.0.log
    × ((pos 1 ≡ pos 1) ⊎ (2 ^ 63 ≤ info_bytes options))
accepted_threads_fit_example =
    accepted_threads_fit (remote_nid 2 ∷ thread 1 ∷ []) options accepted written_once.1
