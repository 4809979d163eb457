-- ===== src/TestRpc/Sync.antt =====
-- client/test_rpc.c, `test_sync_rpc_send`, whose requests are sent one after the other, and the thread
-- of its peer, `thread_recv`, which receives and replies. The results of the allocations are not looked
-- at, as in the source. `memset` is the C library's; `none` is a fault, which kills the process, and the
-- functions that call it are `none` then too. Left out are `mlock`, the printing and the clock, and with
-- the clock the times that `test_async_rpc_send` records under an option that is off by default: with
-- that option on, a measured time that is not above 0 ends the program (`BUG`).
pub mod Requests
pub mod Balance
pub mod Sender
mod Tests
use freelite.Base.{ℕ, zero, suc, ◌*◌, ℤ, pos, Bytes, [], ◌∷◌, ◌++◌, Option, none, some}
use freelite.Os.{Memset}
use freelite.Rpc.{RpcRspMsg}
use freelite.Shm.{SharedMemory}
use freelite.Client.{Client, ClientOs}
use freelite.Client.Calls
use freelite.TestRpc.Threads.{ThreadInfo}
use freelite.TestRpc.Ring.{Memory, Buffers, rpcs}

-- The names of the shared memories: "test_sync_rpc_", then "send_" or "recv_", then the buffer.
abbrev pub name_prefix : Bytes
name_prefix =
    b't' ∷ b'e' ∷ b's' ∷ b't' ∷ b'_' ∷ b's' ∷ b'y' ∷ b'n' ∷ b'c' ∷ b'_' ∷ b'r' ∷ b'p' ∷ b'c' ∷ b'_'
    ∷ []

abbrev pub send_read : Bytes
send_read = name_prefix ++ b's' ∷ b'e' ∷ b'n' ∷ b'd' ∷ b'_' ∷ b'r' ∷ b'e' ∷ b'a' ∷ b'd' ∷ []

abbrev pub send_write : Bytes
send_write = name_prefix ++ b's' ∷ b'e' ∷ b'n' ∷ b'd' ∷ b'_' ∷ b'w' ∷ b'r' ∷ b'i' ∷ b't' ∷ b'e' ∷ []

abbrev pub send_poll_array : Bytes
send_poll_array =
    name_prefix
    ++ b's' ∷ b'e' ∷ b'n' ∷ b'd' ∷ b'_' ∷ b'p' ∷ b'o' ∷ b'l' ∷ b'l' ∷ b'_' ∷ b'a' ∷ b'r' ∷ b'r'
      ∷ b'a' ∷ b'y' ∷ []

abbrev pub recv_read : Bytes
recv_read = name_prefix ++ b'r' ∷ b'e' ∷ b'c' ∷ b'v' ∷ b'_' ∷ b'r' ∷ b'e' ∷ b'a' ∷ b'd' ∷ []

abbrev pub recv_write : Bytes
recv_write = name_prefix ++ b'r' ∷ b'e' ∷ b'c' ∷ b'v' ∷ b'_' ∷ b'w' ∷ b'r' ∷ b'i' ∷ b't' ∷ b'e' ∷ []

-- "test_async_rpc_recv_read" and "test_async_rpc_recv_write".
abbrev pub async_prefix : Bytes
async_prefix =
    b't' ∷ b'e' ∷ b's' ∷ b't' ∷ b'_' ∷ b'a' ∷ b's' ∷ b'y' ∷ b'n' ∷ b'c' ∷ b'_' ∷ b'r' ∷ b'p' ∷ b'c'
    ∷ b'_' ∷ b'r' ∷ b'e' ∷ b'c' ∷ b'v' ∷ b'_' ∷ []

abbrev pub async_recv_read : Bytes
async_recv_read = async_prefix ++ b'r' ∷ b'e' ∷ b'a' ∷ b'd' ∷ []

abbrev pub async_recv_write : Bytes
async_recv_write = async_prefix ++ b'w' ∷ b'r' ∷ b'i' ∷ b't' ∷ b'e' ∷ []

abbrev pub buffer_size : ℕ
buffer_size = 4096 * 2

-- The next call, if the one before it could be made.
infixl 5 ◌>>=◌
abbrev pub ◌>>=◌ {ℓ κ} : {A : Type ℓ} {B : Type κ} → Option A → (A → Option B) → Option B
none >>= f = none
some a >>= f = f a

-- BLOCK_CALL
abbrev pub block_call : ℤ
block_call = pos 1

-- What the two variables of a buffer hold.
pub record Buffer : Type 0 where
  pub local : ℕ
  pub remote : ℕ

module _ {W : Type 0} (os : ClientOs W) (junk : RpcRspMsg) where
  -- `local_at` is the address of the variable, which is only compared with MAP_FAILED, and `before`
  -- what the two hold before the call.
  unfoldable pub alloc :
      SharedMemory W → ℕ → Buffer → Bytes → ℕ → Client W → Option (Buffer × Client W)
  alloc shm local_at before name size s =
      elim (Calls.alloc_local_mem os junk shm name size local_at before.local before.remote s) [
        | none ↦ none
        | some ((n, local, remote), s') ↦ some (record { local = local; remote = remote }, s')
      ]

  unfoldable pub free : Bytes → ℕ → Buffer → Client W → Option (Client W)
  free name size b s = elim (Calls.free_local_mem os junk name size b.local b.remote s) [
    | none ↦ none
    | some (n, s') ↦ some s'
  ]

  module _ (info : ThreadInfo) where
    -- The loop of the sender, with `n` rounds to go.
    unfoldable pub send_loop : ℕ → ℕ → ℕ → ℕ → Client W → Client W
    send_loop zero remote_write remote_read remote_poll_array s = s
    send_loop (suc n) remote_write remote_read remote_poll_array s =
        send_loop n remote_write remote_read remote_poll_array
          (Calls.send_reply_imm_fast os junk (pos info.remote_nid) info.outbound_port remote_write
            (pos 4) remote_read remote_poll_array (pos 4096) s).1

    -- The loop of the receiver. A reply names the descriptor that the call before it has given.
    unfoldable pub recv_loop : ℕ → ℕ → ℕ → Client W → Client W
    recv_loop zero remote_write remote_read s = s
    recv_loop (suc n) remote_write remote_read s =
        let got =
          Calls.receive_message_fast os junk info.inbound_port remote_read (pos 4096) block_call
            s in
        recv_loop n remote_write remote_read
          (Calls.reply_message os junk remote_write (pos 4) got.0.1 got.1).1

    unfoldable pub test_sync_rpc_send :
        Memset W → SharedMemory W → ℕ → Buffer → ℕ → Client W → Option (Client W)
    test_sync_rpc_send memset shm local_at before n s = do
      (read, s₁) ← alloc shm local_at before send_read buffer_size s
      (write, s₂) ← alloc shm local_at before send_write buffer_size s₁
      (poll_array, s₃) ← alloc shm local_at before send_poll_array 4 s₂
      w ← memset poll_array.local 0 4 s₃.world
      let s₄ = send_loop n write.remote read.remote poll_array.remote (record s₃ { world = w })
      s₅ ← free send_read buffer_size read s₄
      s₆ ← free send_write buffer_size write s₅
      free send_poll_array 4 poll_array s₆

    -- The body of the two receivers, whose memories have these names.
    unfoldable pub receive_all :
        Bytes → Bytes → SharedMemory W → ℕ → Buffer → ℕ → Client W → Option (Client W)
    receive_all read_name write_name shm local_at before n s = do
      (read, s₁) ← alloc shm local_at before read_name buffer_size s
      (write, s₂) ← alloc shm local_at before write_name buffer_size s₁
      let s₃ = recv_loop n write.remote read.remote s₂
      s₄ ← free read_name buffer_size read s₃
      free write_name buffer_size write s₄

    abbrev pub test_sync_rpc_recv : SharedMemory W → ℕ → Buffer → ℕ → Client W → Option (Client W)
    test_sync_rpc_recv = receive_all recv_read recv_write

    abbrev pub test_async_rpc_recv : SharedMemory W → ℕ → Buffer → ℕ → Client W → Option (Client W)
    test_async_rpc_recv = receive_all async_recv_read async_recv_write

    unfoldable pub thread_recv : SharedMemory W → ℕ → Buffer → ℕ → Client W → Option (Client W)
    thread_recv shm local_at before nr_rpc s = do
      s' ← test_async_rpc_recv shm local_at before nr_rpc s
      test_sync_rpc_recv shm local_at before nr_rpc s'

-- "test_async_rpc_send_read", "test_async_rpc_send_write" and "test_async_rpc_send_poll_array".
abbrev pub async_send_prefix : Bytes
async_send_prefix =
    b't' ∷ b'e' ∷ b's' ∷ b't' ∷ b'_' ∷ b'a' ∷ b's' ∷ b'y' ∷ b'n' ∷ b'c' ∷ b'_' ∷ b'r' ∷ b'p' ∷ b'c'
    ∷ b'_' ∷ b's' ∷ b'e' ∷ b'n' ∷ b'd' ∷ b'_' ∷ []

module _ {W : Type 0} (os : ClientOs W) (junk : RpcRspMsg) (memory : Memory W)
    (info : ThreadInfo) where
  -- The sender of asynchronous requests; `fuel` is for its waits.
  unfoldable pub test_async_rpc_send :
      Memset W → SharedMemory W → ℕ → Buffer → ℕ → ℕ → ℕ → Client W → Option (Client W)
  test_async_rpc_send memset shm local_at before fuel async_batch_size n s = do
    let read_name = async_send_prefix ++ b'r' ∷ b'e' ∷ b'a' ∷ b'd' ∷ []
    let write_name = async_send_prefix ++ b'w' ∷ b'r' ∷ b'i' ∷ b't' ∷ b'e' ∷ []
    let poll_name =
        async_send_prefix
        ++ b'p' ∷ b'o' ∷ b'l' ∷ b'l' ∷ b'_' ∷ b'a' ∷ b'r' ∷ b'r' ∷ b'a' ∷ b'y' ∷ []
    (read, s₁) ← alloc os junk shm local_at before read_name buffer_size s
    (write, s₂) ← alloc os junk shm local_at before write_name buffer_size s₁
    (poll, s₃) ← alloc os junk shm local_at before poll_name (4 * async_batch_size) s₂
    let b : Buffers = record {
      remote_write = write.remote;
      remote_read = read.remote;
      poll_array = poll.local;
      remote_poll_array = poll.remote;
    }
    w ← memset poll.local 0 (4 * async_batch_size) s₃.world
    s₄ ← rpcs os junk memory info b fuel async_batch_size 0 n (record s₃ { world = w })
    s₅ ← free os junk read_name buffer_size read s₄
    s₆ ← free os junk write_name buffer_size write s₅
    free os junk poll_name (4 * async_batch_size) poll s₆

  -- Between its two tests the thread waits at a barrier, which changes nothing of its own.
  unfoldable pub thread_send_lat :
      Memset W → SharedMemory W → ℕ → Buffer → ℕ → ℕ → ℕ → Client W → Option (Client W)
  thread_send_lat memset shm local_at before fuel async_batch_size nr_rpc s = do
    s' ← test_async_rpc_send memset shm local_at before fuel async_batch_size nr_rpc s
    test_sync_rpc_send os junk info memset shm local_at before nr_rpc s'
