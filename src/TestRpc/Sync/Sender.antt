-- ===== src/TestRpc/Sync/Sender.antt =====
-- What `test_sync_rpc_send` of client/test_rpc.c sends.
use freelite.Base.{
  ℕ, minus_one, List, [], ◌∷◌, ◌++◌, some, ◌≡◌, ◌≢◌, ◌⊎◌, inl, inr, refl, Option, none,
  Option-cases,
}
use freelite.Os.{Memset}
use freelite.Rpc.{RpcReqMsg, RpcRspMsg}
use freelite.Shm.{SharedMemory}
use freelite.Client.{Client, ClientOs}
use freelite.Client.Stubs.{alloc_local_mem_request, free_local_mem_request}
use freelite.Client.Log.{Logs, Sent, Sent-trans, stays_open}
use freelite.TestRpc.Threads.{ThreadInfo}
use freelite.TestRpc.Sync.{
  send_read, send_write, send_poll_array, buffer_size, Buffer, ◌>>=◌, alloc, free, send_loop,
  test_sync_rpc_send,
}
use freelite.TestRpc.Sync.Requests.{
  messages, alloc_named, free_named, alloc-Sent, free-Sent, send_loop-Sent,
}

module _ {W : Type 0} (os : ClientOs W) (junk : RpcRspMsg) (shm : SharedMemory W)
    (log : W → List RpcReqMsg) (l : Logs os shm (λ req. req) log) where
  -- The three buffers of the sender of synchronous requests, and the client that has asked for them.
  abbrev pub send_buffers : ℕ → Buffer → Client W → Option ((Buffer × Buffer × Buffer) × Client W)
  send_buffers local_at before s = do
    (read, s₁) ← alloc os junk shm local_at before send_read buffer_size s
    (write, s₂) ← alloc os junk shm local_at before send_write buffer_size s₁
    (poll_array, s₃) ← alloc os junk shm local_at before send_poll_array 4 s₂
    some ((read, write, poll_array), s₃)

  send_buffers-Sent :
      (local_at : ℕ) (before : Buffer) (s : Client W)
      → s.client_sock ≢ minus_one
      → (b : Buffer × Buffer × Buffer) × (s₃ : Client W) × (send_buffers local_at before s
          ≡ some (b, s₃))
        × Sent log
            (alloc_named send_read buffer_size
              ∷ alloc_named send_write buffer_size
              ∷ alloc_named send_poll_array 4
              ∷ [])
            s
            s₃
  unfolding alloc_local_mem_request
  send_buffers-Sent local_at before s open_ =
      let (read, s₁, e₁, a₁) =
        alloc-Sent os junk shm log l local_at before send_read buffer_size _ s refl open_ in
      let open₁ = stays_open a₁ open_ in
      let (write, s₂, e₂, a₂) =
        alloc-Sent os junk shm log l local_at before send_write buffer_size _ s₁ refl open₁ in
      let (poll, s₃, e₃, a₃) =
        alloc-Sent os junk shm log l local_at before send_poll_array 4 _ s₂ refl
          (stays_open a₂ open₁) in
      ((read, write, poll), s₃, rw (e₁, e₂, e₃) refl, Sent-trans a₁ (Sent-trans a₂ a₃))

  -- The requests of the sender from the loop on.
  abbrev pub send_requests : ThreadInfo → ℕ → Buffer × Buffer × Buffer → List RpcReqMsg
  send_requests info n (read, write, poll_array) =
      messages info write.remote read.remote poll_array.remote n
      ++ free_named send_read buffer_size read
        ∷ free_named send_write buffer_size write
        ∷ free_named send_poll_array 4 poll_array
        ∷ []

  -- What follows the buffers: a fault of `memset` at the third one, or the rest.
  abbrev pub Sends :
      ThreadInfo → Memset W → ℕ → Option (Client W) → (Buffer × Buffer × Buffer) → Client W → Type 0
  Sends info memset n ended b s₃ =
      ((memset b.2.local 0 4 s₃.world ≡ none) × (ended ≡ none))
      ⊎ ((w : W) × (s' : Client W) × (memset b.2.local 0 4 s₃.world ≡ some w)
          × (ended ≡ some s')
          × Sent log (send_requests info n b) (record s₃ { world = w }) s')

  -- The function from `memset` on.
  abbrev with_buffers :
      ThreadInfo → Memset W → ℕ → Buffer × Buffer × Buffer → Client W → Option (Client W)
  with_buffers info memset n (read, write, poll_array) s₃ = do
    w ← memset poll_array.local 0 4 s₃.world
    let s₄ =
        send_loop os junk info n write.remote read.remote poll_array.remote
          (record s₃ { world = w })
    s₅ ← free os junk send_read buffer_size read s₄
    s₆ ← free os junk send_write buffer_size write s₅
    free os junk send_poll_array 4 poll_array s₆

  test_sync_rpc_send-buffers :
      (info : ThreadInfo) (memset : Memset W) (local_at : ℕ) (before : Buffer) (n : ℕ)
      (s : Client W)
      → test_sync_rpc_send os junk info memset shm local_at before n s
        ≡ (send_buffers local_at before s >>= λ (b, s₃). with_buffers info memset n b s₃)
  unfolding test_sync_rpc_send
  test_sync_rpc_send-buffers info memset local_at before n s =
      elim (Option-cases (alloc os junk shm local_at before send_read buffer_size s)) [
        | inl e ↦ rw (e, test_sync_rpc_send) refl
        | inr ((read, s₁), e) ↦
            rw (e, test_sync_rpc_send)
              (elim (Option-cases (alloc os junk shm local_at before send_write buffer_size s₁)) [
                | inl e' ↦ rw e' refl
                | inr ((write, s₂), e') ↦
                    rw e'
                      (elim (Option-cases
                        (alloc os junk shm local_at before send_poll_array 4 s₂)) [
                          | inl f ↦ rw f refl
                          | inr (b, f) ↦ rw f refl
                        ])
              ])
      ]

  after_buffers :
      (info : ThreadInfo) (memset : Memset W) (n : ℕ) (b : Buffer × Buffer × Buffer) (s₃ : Client W)
      → s₃.client_sock ≢ minus_one
      → Sends info memset n (with_buffers info memset n b s₃) b s₃
  unfolding free_local_mem_request
  after_buffers info memset n (read, write, poll) s₃ open₃ =
      elim (Option-cases (memset poll.local 0 4 s₃.world)) [
        | inl fault ↦ inl (fault, rw fault refl)
        | inr (w, set) ↦
            let a₄ =
              send_loop-Sent os junk shm log l info n write.remote read.remote poll.remote
                (record s₃ { world = w }) open₃ in
            let open₄ = stays_open a₄ open₃ in
            let (s₅, e₅, a₅) =
              free-Sent os junk shm log l send_read buffer_size read _ _ refl open₄ in
            let open₅ = stays_open a₅ open₄ in
            let (s₆, e₆, a₆) =
              free-Sent os junk shm log l send_write buffer_size write _ s₅ refl open₅ in
            let (s₇, e₇, a₇) =
              free-Sent os junk shm log l send_poll_array 4 poll _ s₆ refl (stays_open a₆ open₅) in
            inr (w, s₇, set, rw (set, e₅, e₆) e₇, Sent-trans a₄ (Sent-trans a₅ (Sent-trans a₆ a₇)))
      ]

  pub test_sync_rpc_send-Sends :
      (info : ThreadInfo) (memset : Memset W) (local_at : ℕ) (before : Buffer) (n : ℕ)
      (s : Client W)
      → s.client_sock ≢ minus_one
      → (b : Buffer × Buffer × Buffer) × (s₃ : Client W) × (send_buffers local_at before s
          ≡ some (b, s₃))
        × Sent log
            (alloc_named send_read buffer_size
              ∷ alloc_named send_write buffer_size
              ∷ alloc_named send_poll_array 4
              ∷ [])
            s
            s₃
        × Sends info memset n (test_sync_rpc_send os junk info memset shm local_at before n s) b s₃
  test_sync_rpc_send-Sends info memset local_at before n s open_ =
      let (b, s₃, e, a) = send_buffers-Sent local_at before s open_ in
      (
        b,
        s₃,
        e,
        a,
        rw (test_sync_rpc_send-buffers info memset local_at before n s, e)
            (after_buffers info memset n b s₃ (stays_open a open_)),
      )
