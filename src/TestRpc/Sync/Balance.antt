-- ===== src/TestRpc/Sync/Balance.antt =====
-- The calls of the receiving thread of the benchmark in client/test_rpc.c.
use freelite.Base.{
  arith, length, ◌<◌, ℕ, minus_one, Bytes, List, [], ◌∷◌, ◌++◌, some, ◌≡◌, ◌≢◌, refl,
}
use freelite.Rpc.{RpcReqMsg, RpcRspMsg}
use freelite.Shm.{SharedMemory}
use freelite.Client.{Client, ClientOs}
use freelite.Client.Log.{Logs, Sent, Sent-trans, stays_open}
use freelite.TestRpc.Threads.{ThreadInfo}
use freelite.TestRpc.Sync.{
  recv_read, recv_write, buffer_size, Buffer, receive_all, async_recv_read, async_recv_write,
  thread_recv,
}
use freelite.TestRpc.Sync.Requests.{
  Serves, alloc_named, free_named, named_request, named_free, alloc-Sent, free-Sent, recv_loop-Sent,
}

module _ {W : Type 0} (os : ClientOs W) (junk : RpcRspMsg) (shm : SharedMemory W)
    (log : W → List RpcReqMsg) (l : Logs os shm (λ req. req) log) where
  -- What a receiver with these names has sent.
  abbrev pub Receives : ThreadInfo → Bytes → Bytes → ℕ → List RpcReqMsg → Type 0
  Receives info read_name write_name n sent =
      (read : Buffer) × (write : Buffer) × (reqs : List RpcReqMsg) × Serves info write.remote
        read.remote n reqs
      × (sent
          ≡ alloc_named read_name buffer_size ∷ alloc_named write_name buffer_size ∷ reqs
            ++ free_named read_name buffer_size read ∷ free_named write_name buffer_size write ∷ [])

  receive_all-Receives :
      (info : ThreadInfo) (read_name write_name : Bytes) (local_at : ℕ) (before : Buffer) (n : ℕ)
      (s : Client W)
      → length read_name < 256
      → length write_name < 256
      → s.client_sock ≢ minus_one
      → (s' : Client W) × (sent : List RpcReqMsg) × (receive_all os junk info read_name write_name
            shm local_at before n s
          ≡ some s')
        × Receives info read_name write_name n sent
        × Sent log sent s s'
  unfolding receive_all
  receive_all-Receives info read_name write_name local_at before n s fits fits' open_ =
      let (read, s₁, e₁, a₁) =
        alloc-Sent os junk shm log l local_at before read_name buffer_size _ s
          (named_request read_name fits) open_ in
      let open₁ = stays_open a₁ open_ in
      let (write, s₂, e₂, a₂) =
        alloc-Sent os junk shm log l local_at before write_name buffer_size _ s₁
          (named_request write_name fits') open₁ in
      let open₂ = stays_open a₂ open₁ in
      let (reqs, serves, a₃) =
        recv_loop-Sent os junk shm log l info n write.remote read.remote s₂ open₂ in
      let open₃ = stays_open a₃ open₂ in
      let (s₄, e₄, a₄) =
        free-Sent os junk shm log l read_name buffer_size read _ _ (named_free read_name read fits)
          open₃ in
      let (s₅, e₅, a₅) =
        free-Sent os junk shm log l write_name buffer_size write _ s₄
          (named_free write_name write fits') (stays_open a₄ open₃) in
      (
        s₅,
        _,
        rw (e₁, receive_all, e₂, e₄) e₅,
        (read, write, reqs, serves, refl),
        Sent-trans a₁ (Sent-trans a₂ (Sent-trans a₃ (Sent-trans a₄ a₅))),
      )

  pub thread_recv-Receives :
      (info : ThreadInfo) (local_at : ℕ) (before : Buffer) (n : ℕ) (s : Client W)
      → s.client_sock ≢ minus_one
      → (s' : Client W) × (first : List RpcReqMsg) × (second : List RpcReqMsg) × (thread_recv os
            junk info shm local_at before n s
          ≡ some s')
        × Receives info async_recv_read async_recv_write n first
        × Receives info recv_read recv_write n second
        × Sent log (first ++ second) s s'
  unfolding thread_recv
  thread_recv-Receives info local_at before n s open_ =
      let (s₁, first, e₁, got, a₁) =
        receive_all-Receives info async_recv_read async_recv_write local_at before n s (omega arith)
          (omega arith) open_ in
      let (s₂, second, e₂, got', a₂) =
        receive_all-Receives info recv_read recv_write local_at before n s₁ (omega arith)
          (omega arith) (stays_open a₁ open_) in
      (s₂, first, second, rw (e₁, thread_recv) e₂, got, got', Sent-trans a₁ a₂)
