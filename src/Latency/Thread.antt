-- ===== src/Latency/Thread.antt =====
-- client/test_latency.c, `rdma_write_read`: a thread of the benchmark, one call at a time. Times and
-- output are left out, and so is the test of `buf`, which ends the process.
use freelite.Base.{ℕ, suc, ◌+◌, ◌*◌, ◌<◌, ℤ, List, [], ◌∷◌, none, some, ◌≡◌, to_u32, get_elem?}

-- NR_TESTS_PER_SIZE
abbrev pub nr_tests_per_size : ℕ
nr_tests_per_size = 1000 * 1000

-- `get_elem? testsize i` is `none` past the end of the array.
abbrev pub testsize : List ℕ
testsize = 8 ∷ 64 ∷ 512 ∷ 1024 ∷ 2048 ∷ 4096 ∷ 8192 ∷ []

-- The three calls of `pthread_barrier_wait`, all on one barrier.
pub data Wait : Type 0 where
  first second third : Wait

-- Where a thread stands. `writing i j` is before the round `j` of the inner loop for `testsize[i]`.
pub data Pc : Type 0 where
  starting : Pc  -- before `userspace_liteapi_alloc_local_mem`
  failed : Pc  -- left by `pthread_exit` since that call has failed
  waiting : Wait → Pc
  allocating : Pc  -- in the branch of `PTHREAD_BARRIER_SERIAL_THREAD`
  writing : ℕ → ℕ → Pc
  reading : ℕ → ℕ → Pc
  freeing : Pc
  exited : Pc

-- What a thread does besides: the calls of the library with the handle and the size, and the entry
-- of `per_rps` that it writes.
pub data Event : Type 0 where
  allocates : ℤ → Event
  writes : ℕ → ℕ → Event
  reads : ℕ → ℕ → Event
  stores : ℕ → Event

-- One step of thread `t` out of `nr_threads`. `test_key` is the int that it was converted from; only
-- its low 32 bits are passed on.
pub data Move (nr_threads t : ℕ) (test_key : ℤ) : Pc → List Event → ℤ → Pc → Type 0 where
  alloc_ok : Move nr_threads t test_key starting [] test_key (waiting first)
  alloc_fails : Move nr_threads t test_key starting [] test_key failed
  alloc_remote : (v : ℤ) → Move nr_threads t test_key allocating (allocates v ∷ []) v (writing 0 0)
  write :
      (i j size : ℕ)
      → get_elem? testsize i ≡ some size
      → j < nr_tests_per_size
      → Move nr_threads t test_key
          (writing i j)
          (writes (to_u32 test_key) size ∷ [])
          test_key
          (writing i (suc j))
  write_rate :
      (i j size : ℕ)
      → get_elem? testsize i ≡ some size
      → j ≡ nr_tests_per_size
      → Move nr_threads t test_key
          (writing i j)
          (stores (i * nr_threads + t) ∷ [])
          test_key
          (writing (suc i) 0)
  written :
      (i j : ℕ)
      → get_elem? testsize i ≡ none
      → Move nr_threads t test_key (writing i j) [] test_key (waiting second)
  read :
      (i j size : ℕ)
      → get_elem? testsize i ≡ some size
      → j < nr_tests_per_size
      → Move nr_threads t test_key
          (reading i j)
          (reads (to_u32 test_key) size ∷ [])
          test_key
          (reading i (suc j))
  read_rate :
      (i j size : ℕ)
      → get_elem? testsize i ≡ some size
      → j ≡ nr_tests_per_size
      → Move nr_threads t test_key
          (reading i j)
          (stores (i * nr_threads + t) ∷ [])
          test_key
          (reading (suc i) 0)
  read_all :
      (i j : ℕ)
      → get_elem? testsize i ≡ none
      → Move nr_threads t test_key (reading i j) [] test_key (waiting third)
  free : Move nr_threads t test_key freeing [] test_key exited

-- Where a thread goes on after the barrier; `serial_after` is the one that is told to be serial.
abbrev pub after : Wait → Pc
after first = writing 0 0
after second = reading 0 0
after third = freeing

abbrev pub serial_after : Wait → Pc
serial_after first = allocating
serial_after second = reading 0 0
serial_after third = freeing
