-- ===== src/TestRpc/Sync/Requests.antt =====
-- The requests of the loops of client/test_rpc.c, and of its allocations.
use freelite.Base.{
  arith, length, ◌<◌, ℕ, zero, suc, pos, minus_one, Bytes, List, [], ◌∷◌, some, ◌≡◌, ◌≢◌, refl,
}
use freelite.Rpc.{
  RpcReqMsg, RpcRspMsg, alloc_local_mem_req, free_local_mem_req, alloc_local_mem_code,
  free_local_mem_code,
}
use freelite.Shm.{SharedMemory}
use freelite.Client.{Client, ClientOs}
use freelite.Client.Calls
use freelite.Client.Calls.{response, map_local}
use freelite.Client.Stubs.{
  alloc_local_mem_request, free_local_mem_request, send_reply_imm_fast_request,
  receive_message_fast_request, reply_message_request,
}
use freelite.Client.Log.{
  Logs, Sent, response-Sent, map_local-Sent, int_call-Sent, Sent-trans, Sent-refl, stays_open,
}
use freelite.TestRpc.Threads.{ThreadInfo}
use freelite.TestRpc.Sync.{buffer_size, block_call, Buffer, alloc, free, send_loop, recv_loop}

module _ (info : ThreadInfo) (remote_write remote_read : ℕ) where
  -- So many messages to the port of the peer.
  unfoldable pub messages : ℕ → ℕ → List RpcReqMsg
  messages remote_poll_array zero = []
  messages remote_poll_array (suc n) =
      send_reply_imm_fast_request (pos info.remote_nid) info.outbound_port remote_write (pos 4)
        remote_read remote_poll_array (pos 4096)
      ∷ messages remote_poll_array n

  -- So many times a message is received and a reply given.
  abbrev pub Serves : ℕ → List RpcReqMsg → Type 0
  Serves zero reqs = reqs ≡ []
  Serves (suc n) reqs =
      (descriptor : ℕ) × (rest : List RpcReqMsg) × (reqs
        ≡ receive_message_fast_request info.inbound_port remote_read (pos 4096) block_call
          ∷ reply_message_request remote_write (pos 4) descriptor
          ∷ rest)
      × Serves n rest

abbrev pub alloc_named : Bytes → ℕ → RpcReqMsg
alloc_named name size = record {
  func_code = alloc_local_mem_code;
  msg_body = alloc_local_mem_req (record { name = name; size = size });
}

abbrev pub free_named : Bytes → ℕ → Buffer → RpcReqMsg
free_named name size b = record {
  func_code = free_local_mem_code;
  msg_body = free_local_mem_req (record { name = name; size = size; remote_addr = b.remote });
}

pub named_request :
    (name : Bytes)
    → length name < 256
    → alloc_local_mem_request name buffer_size ≡ some (alloc_named name buffer_size)
unfolding alloc_local_mem_request
named_request name fits = ground arith

pub named_free :
    (name : Bytes) (b : Buffer)
    → length name < 256
    → free_local_mem_request name buffer_size b.remote ≡ some (free_named name buffer_size b)
unfolding free_local_mem_request
named_free name b fits = ground arith

module _ {W : Type 0} (os : ClientOs W) (junk : RpcRspMsg) (shm : SharedMemory W)
    (log : W → List RpcReqMsg) (l : Logs os shm (λ req. req) log) where
  pub alloc-Sent :
      (local_at : ℕ) (before : Buffer) (name : Bytes) (size : ℕ) (req : RpcReqMsg) (s : Client W)
      → alloc_local_mem_request name size ≡ some req
      → s.client_sock ≢ minus_one
      → (b : Buffer) × (s' : Client W) × (alloc os junk shm local_at before name size s
          ≡ some (b, s'))
        × Sent log (req ∷ []) s s'
  unfolding alloc Calls.alloc_local_mem
  alloc-Sent local_at before name size req s e open_ =
      let asked = response-Sent os junk shm log l s req open_ in
      let answer = response os junk req s in
      let r =
        map_local os junk shm name size local_at before.local before.remote answer.0 answer.1 in
      let mapped =
        map_local-Sent os junk shm log l name size local_at before.local before.remote answer.0
          answer.1 in
      (
        record { local = r.0.1; remote = r.0.2 },
        r.1,
        rw (e, alloc, Calls.alloc_local_mem) refl,
        Sent-trans asked mapped,
      )

  pub free-Sent :
      (name : Bytes) (size : ℕ) (b : Buffer) (req : RpcReqMsg) (s : Client W)
      → free_local_mem_request name size b.remote ≡ some req
      → s.client_sock ≢ minus_one
      → (s' : Client W) × (free os junk name size b s ≡ some s') × Sent log (req ∷ []) s s'
  unfolding free Calls.free_local_mem Calls.text_call
  free-Sent name size b req s e open_ = (
    _,
    rw (e, free, Calls.free_local_mem, Calls.text_call) refl,
    int_call-Sent os junk shm log l s req open_,
  )

  pub send_loop-Sent :
      (info : ThreadInfo) (n remote_write remote_read remote_poll_array : ℕ) (s : Client W)
      → s.client_sock ≢ minus_one
      → Sent log
          (messages info remote_write remote_read remote_poll_array n)
          s
          (send_loop os junk info n remote_write remote_read remote_poll_array s)
  unfolding send_loop messages Calls.send_reply_imm_fast
  send_loop-Sent info zero remote_write remote_read remote_poll_array s open_ = Sent-refl s
  send_loop-Sent info (suc n) remote_write remote_read remote_poll_array s open_ =
      let first = int_call-Sent os junk shm log l s _ open_ in
      Sent-trans first (
        send_loop-Sent info n remote_write remote_read remote_poll_array _ (stays_open first open_))

  pub recv_loop-Sent :
      (info : ThreadInfo) (n remote_write remote_read : ℕ) (s : Client W)
      → s.client_sock ≢ minus_one
      → (reqs : List RpcReqMsg) × Serves info remote_write remote_read n reqs
        × Sent log reqs s (recv_loop os junk info n remote_write remote_read s)
  unfolding recv_loop Calls.receive_message_fast Calls.reply_message
  recv_loop-Sent info zero remote_write remote_read s open_ = ([], refl, Sent-refl s)
  recv_loop-Sent info (suc n) remote_write remote_read s open_ =
      let got =
        response-Sent os junk shm log l s
          (receive_message_fast_request info.inbound_port remote_read (pos 4096) block_call)
          open_ in
      let replied = int_call-Sent os junk shm log l _ _ (stays_open got open_) in
      let both = Sent-trans got replied in
      let (reqs, serves, later) =
        recv_loop-Sent info n remote_write remote_read _ (stays_open both open_) in
      (_, (_, reqs, refl, serves), Sent-trans both later)
