-- ===== src/TestWrite/Tests.antt =====
-- The theorem about client/test_write.c with a world that keeps the requests and the bytes that are set.
use freelite.Base.{ℕ, ℤ, pos, List, [], ◌∷◌, ◌++◌, inr, some, ◌≡◌, refl}
use freelite.Rpc.{zeroed}
use freelite.Client.{Client}
use freelite.Client.Calls
use freelite.Client.Log.Recorder.{os, shm, os-Logs, client}
use freelite.Os.{Memset}
use freelite.TestWrite.{memory_name, memory_size}
use freelite.TestWrite.Writes.{Act, sends, sets, Writes, init_log-Writes}

abbrev memset : Memset (List Act)
memset addr byte count w = some (w ++ sets addr byte count ∷ [])

init_log-Writes_example :
    (r : (ℤ × ℕ × ℕ) × Client (List Act)) × (Calls.alloc_local_mem
        (os sends)
        zeroed
        (shm sends)
        memory_name
        memory_size
        16
        0
        0
        (client sends)
      ≡ some r)
    × Writes
        (os sends)
        zeroed
        (shm sends)
        (λ w. w)
        (os-Logs sends)
        memset
        (λ addr byte count w. inr (_, refl, refl))
        16
        0
        0
        (pos 2)
        (client sends)
        r
init_log-Writes_example =
    init_log-Writes (os sends) zeroed (shm sends) (λ w. w) (os-Logs sends) memset
      (λ addr byte count w. inr (_, refl, refl)) 16 0 0 (pos 2) (client sends) (λ e. cc)
