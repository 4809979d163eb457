-- ===== src/TestRpc/Sync/Tests.antt =====
-- The theorems about the two ends of client/test_rpc.c with a world that keeps the requests.
use freelite.Base.{true, false, List, [], ◌∷◌, ◌++◌, some, ◌≡◌}
use freelite.Os.{Memset}
use freelite.Rpc.{RpcReqMsg, zeroed}
use freelite.Client.{Client}
use freelite.Client.Log.{Sent}
use freelite.Client.Log.Recorder.{os, shm, os-Logs, client}
use freelite.TestRpc.Threads.{thread_info}
use freelite.TestRpc.Sync.{
  send_read, send_write, send_poll_array, buffer_size, test_sync_rpc_send, Buffer, thread_recv,
  async_recv_read, async_recv_write, recv_read, recv_write,
}
use freelite.TestRpc.Sync.Balance.{Receives, thread_recv-Receives}
use freelite.TestRpc.Sync.Sender.{send_buffers, Sends, test_sync_rpc_send-Sends}
use freelite.TestRpc.Sync.Requests.{alloc_named}

-- The log has the requests themselves.
abbrev same : RpcReqMsg → RpcReqMsg
same req = req

abbrev unset : Buffer
unset = record { local = 0; remote = 0 }

thread_recv-Receives_example :
    (s' : Client (List RpcReqMsg)) × (first : List RpcReqMsg) × (second : List RpcReqMsg)
    × (thread_recv (os same) zeroed (thread_info true 3 0) (shm same) 16 unset 5 (client same)
        ≡ some s')
    × Receives
        (os same)
        zeroed
        (shm same)
        (λ w. w)
        (os-Logs same)
        (thread_info true 3 0)
        async_recv_read
        async_recv_write
        5
        first
    × Receives
        (os same)
        zeroed
        (shm same)
        (λ w. w)
        (os-Logs same)
        (thread_info true 3 0)
        recv_read
        recv_write
        5
        second
    × Sent (λ w. w) (first ++ second) (client same) s'
thread_recv-Receives_example =
    thread_recv-Receives (os same) zeroed (shm same) (λ w. w) (os-Logs same) (thread_info true 3 0)
      16 unset 5 (client same) (λ e. cc)

abbrev memset : Memset (List RpcReqMsg)
memset addr byte count w = some w

test_sync_rpc_send-Sends_example :
    (b : Buffer × Buffer × Buffer) × (s₃ : Client (List RpcReqMsg)) × (send_buffers
        (os same)
        zeroed
        (shm same)
        (λ w. w)
        (os-Logs same)
        16
        unset
        (client same)
      ≡ some (b, s₃))
    × Sent
        (λ w. w)
        (alloc_named send_read buffer_size
          ∷ alloc_named send_write buffer_size
          ∷ alloc_named send_poll_array 4
          ∷ [])
        (client same)
        s₃
    × Sends
        (os same)
        zeroed
        (shm same)
        (λ w. w)
        (os-Logs same)
        (thread_info false 2 0)
        memset
        5
        (test_sync_rpc_send
          (os same)
          zeroed
          (thread_info false 2 0)
          memset
          (shm same)
          16
          unset
          5
          (client same))
        b
        s₃
test_sync_rpc_send-Sends_example =
    test_sync_rpc_send-Sends (os same) zeroed (shm same) (λ w. w) (os-Logs same)
      (thread_info false 2 0) memset 16 unset 5 (client same) (λ e. cc)
