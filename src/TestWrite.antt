-- ===== src/TestWrite.antt =====
-- client/test_write.c: writes of growing sizes to remote memory. What it prints is left out.
pub mod Writes
mod Tests
use freelite.Base.{
  ℕ, zero, suc, ◌*◌, ℤ, pos, is_neg, to_u32, Bytes, false, List, [], ◌∷◌, Option, none, some,
  if◌then◌else◌,
}
use freelite.Rpc.{RpcRspMsg}
use freelite.Shm.{SharedMemory}
use freelite.Client.{Client, ClientOs}
use freelite.Client.Calls
use freelite.Os.{Memset}

abbrev pub run_times : ℕ
run_times = 10

-- "test_write"
abbrev pub memory_name : Bytes
memory_name = b't' ∷ b'e' ∷ b's' ∷ b't' ∷ b'_' ∷ b'w' ∷ b'r' ∷ b'i' ∷ b't' ∷ b'e' ∷ []

-- The size of both memories.
abbrev pub memory_size : ℕ
memory_size = 1024 * 1024 * 4

abbrev pub password : ℤ
password = pos 100

abbrev pub testsize : List ℕ
testsize = 8 ∷ 8 ∷ 64 ∷ 128 ∷ 512 ∷ 1024 ∷ 2048 ∷ 4096 ∷ 8192 ∷ 16384 ∷ 32768 ∷ 65536 ∷ []

-- By `exit(1)`, by a fault in `memset`, or by `return 0`.
pub data End : Type 0 where
  exits crashes returns : End

-- What `memset` writes, and how many times: `memset(write, 0x36, 1024 * 64)`.
abbrev pub fill_byte : ℕ
fill_byte = 54

abbrev pub fill_count : ℕ
fill_count = 1024 * 64

module _ {W : Type 0} (os : ClientOs W) (junk : RpcRspMsg) where
  -- The inner loop, with `n` rounds to go.
  unfoldable pub write_times : ℕ → ℕ → ℕ → ℕ → Client W → Client W
  write_times zero test_key remote_addr size s = s
  write_times (suc n) test_key remote_addr size s =
      write_times n test_key remote_addr size
        (Calls.rdma_write os junk test_key remote_addr size 0 password s).1

  unfoldable pub write_sizes : List ℕ → ℕ → ℕ → Client W → Client W
  write_sizes [] test_key remote_addr s = s
  write_sizes (size ∷ sizes) test_key remote_addr s =
      write_sizes sizes test_key remote_addr (write_times run_times test_key remote_addr size s)

  -- The call of `free_local_mem` and the test of its result.
  unfoldable pub finish : ℕ → ℕ → Client W → Option (End × Client W)
  finish write remote_addr s =
      elim (Calls.free_local_mem os junk memory_name memory_size write remote_addr s) [
        | none ↦ none
        | some (n, s') ↦ some (if is_neg n then exits else returns, s')
      ]

  -- From the allocation of the remote memory on. Of `test_key` only the low 32 bits are passed on.
  unfoldable pub write_all : ℤ → ℕ → ℕ → Client W → Option (End × Client W)
  unfolding finish
  write_all remote_node write remote_addr s =
      let (test_key, s') =
        Calls.alloc_remote_mem os junk (to_u32 remote_node) memory_size false password s in
      finish write remote_addr (write_sizes testsize (to_u32 test_key) remote_addr s')

  -- `memset`, with the address, the byte and the count, is the C library's; `none` is a fault, as at an
  -- address where nothing is mapped. `local_at` is the address of the variable `write`, and `write` and
  -- `remote_addr` what the two variables hold before they are written. `none` is a name that does not
  -- fit its request.
  unfoldable pub init_log :
      Memset W → SharedMemory W → ℕ → ℕ → ℕ → ℤ → Client W → Option (End × Client W)
  unfolding write_all
  init_log memset shm local_at write remote_addr remote_node s =
      elim (Calls.alloc_local_mem os junk shm memory_name memory_size local_at write remote_addr
        s) [
          | none ↦ none
          | some ((n, write', remote_addr'), s') ↦
              if is_neg n
              then some (exits, s')
              else elim (memset write' fill_byte fill_count s'.world) [
                | none ↦ some (crashes, s')
                | some w ↦ write_all remote_node write' remote_addr' (record s' { world = w })
              ]
        ]
