-- ===== src/TestWrite/Writes.antt =====
-- What client/test_write.c sends, and the memory that it sets.
use freelite.Base.{
  Bool, if◌then◌else◌, All, All-append, ℕ, zero, suc, ◌+◌, ◌*◌, ◌≤◌, length, ℤ, minus_one, is_neg,
  to_u32, Bool-cases, false, true, List, [], ◌∷◌, ◌++◌, some, none, ◌≡◌, ◌≢◌, ◌⊎◌, inl, inr, refl,
  arith,
}
use freelite.Rpc.{
  RpcReqMsg, RpcRspMsg, ReqBody, rdma_write_req, alloc_local_mem_req, free_local_mem_req,
  alloc_local_mem_code, free_local_mem_code,
}
use freelite.Shm.{SharedMemory}
use freelite.Client.{Client, ClientOs}
use freelite.Client.Calls
use freelite.Client.Calls.{response, map_local}
use freelite.Client.Stubs.{
  alloc_remote_mem_request, rdma_write_request, alloc_local_mem_request, free_local_mem_request,
}
use freelite.Client.Log.{
  Logs, Sent, response-Sent, map_local-Sent, int_call-Sent, Sent-trans, Sent-refl, stays_open,
}
use freelite.Os.{Memset}
use freelite.TestWrite.{
  run_times, memory_name, memory_size, password, testsize, End, exits, crashes, returns,
  write_times, write_sizes, finish, write_all, init_log,
}

-- The program asks the world for two things: it sends a request, or sets `count` bytes of memory.
pub data Act : Type 0 where
  sends : RpcReqMsg → Act
  sets : (addr byte count : ℕ) → Act

-- The requests of the writes: so many of each size.
unfoldable pub times : ℕ → Act → List Act
times zero act = []
times (suc n) act = act ∷ times n act

unfoldable pub writes_of : List ℕ → ℕ → ℕ → List Act
writes_of [] test_key remote_addr = []
writes_of (size ∷ sizes) test_key remote_addr =
    times run_times (sends (rdma_write_request test_key remote_addr size 0 password))
    ++ writes_of sizes test_key remote_addr

abbrev pub alloc_request : RpcReqMsg
alloc_request = record {
  func_code = alloc_local_mem_code;
  msg_body = alloc_local_mem_req (record { name = memory_name; size = memory_size });
}

abbrev pub free_request : ℕ → RpcReqMsg
free_request remote_addr = record {
  func_code = free_local_mem_code;
  msg_body =
      free_local_mem_req
        (record { name = memory_name; size = memory_size; remote_addr = remote_addr });
}

-- A write of at most `count` bytes, within the remote memory.
abbrev pub FitsBody : ℕ → ReqBody → Type 0
FitsBody count (rdma_write_req m) = (m.size ≤ count) × (m.offset + m.size ≤ memory_size)
FitsBody count _ = ⊥

abbrev pub Fits : ℕ → Act → Type 0
Fits count (sends req) = FitsBody count req.msg_body
Fits count (sets addr byte n) = ⊥

times-Fits :
    (n test_key remote_addr size : ℕ)
    → size ≤ 1024 * 64
    → All
        (Fits (1024 * 64))
        (times n (sends (rdma_write_request test_key remote_addr size 0 password)))
unfolding times rdma_write_request
times-Fits zero test_key remote_addr size small = tt
times-Fits (suc n) test_key remote_addr size small =
    ((small, omega arith), times-Fits n test_key remote_addr size small)

writes_of-Fits :
    (sizes : List ℕ) (test_key remote_addr : ℕ)
    → All (λ size. size ≤ 1024 * 64) sizes
    → All (Fits (1024 * 64)) (writes_of sizes test_key remote_addr)
unfolding writes_of
writes_of-Fits [] test_key remote_addr small = tt
writes_of-Fits (size ∷ sizes) test_key remote_addr (small, rest) =
    All-append (Fits (1024 * 64))
      (times run_times (sends (rdma_write_request test_key remote_addr size 0 password))) _
      (times-Fits run_times test_key remote_addr size small)
      (writes_of-Fits sizes test_key remote_addr rest)

length-writes_of :
    (test_key remote_addr : ℕ) → length (writes_of testsize test_key remote_addr) ≡ 120
unfolding writes_of times
length-writes_of test_key remote_addr = refl

testsize_small : All (λ size. size ≤ 1024 * 64) testsize
testsize_small = ground arith

-- The program has come to an end of its own.
abbrev pub IsOver : End → Type 0
IsOver end = (end ≡ exits) ⊎ (end ≡ returns)

if-IsOver : (b : Bool) → IsOver (if b then exits else returns)
if-IsOver b = ground arith

module _ {W : Type 0} (os : ClientOs W) (junk : RpcRspMsg) (shm : SharedMemory W)
    (log : W → List Act) (l : Logs os shm sends log) where
  write_times-Sent :
      (n test_key remote_addr size : ℕ) (s : Client W)
      → s.client_sock ≢ minus_one
      → Sent log
          (times n (sends (rdma_write_request test_key remote_addr size 0 password)))
          s
          (write_times os junk n test_key remote_addr size s)
  unfolding write_times times Calls.rdma_write
  write_times-Sent zero test_key remote_addr size s open_ = Sent-refl s
  write_times-Sent (suc n) test_key remote_addr size s open_ =
      let first =
        int_call-Sent os junk shm log l s (rdma_write_request test_key remote_addr size 0 password)
          open_ in
      Sent-trans first (write_times-Sent n test_key remote_addr size _ (stays_open first open_))

  write_sizes-Sent :
      (sizes : List ℕ) (test_key remote_addr : ℕ) (s : Client W)
      → s.client_sock ≢ minus_one
      → Sent log
          (writes_of sizes test_key remote_addr)
          s
          (write_sizes os junk sizes test_key remote_addr s)
  unfolding write_sizes writes_of
  write_sizes-Sent [] test_key remote_addr s open_ = Sent-refl s
  write_sizes-Sent (size ∷ sizes) test_key remote_addr s open_ =
      let first = write_times-Sent run_times test_key remote_addr size s open_ in
      Sent-trans first (write_sizes-Sent sizes test_key remote_addr _ (stays_open first open_))

  finish-Sent :
      (write remote_addr : ℕ) (s : Client W)
      → s.client_sock ≢ minus_one
      → (end : End) × (s' : Client W) × IsOver end
        × (finish os junk write remote_addr s ≡ some (end, s'))
        × Sent log (sends (free_request remote_addr) ∷ []) s s'
  unfolding finish Calls.free_local_mem Calls.text_call free_local_mem_request
  finish-Sent write remote_addr s open_ =
      (_, _, if-IsOver _, refl, int_call-Sent os junk shm log l s (free_request remote_addr) open_)

  -- The requests from the allocation of the remote memory on.
  abbrev pub later_requests : ℤ → ℕ → ℕ → List Act
  later_requests remote_node remote_addr test_key =
      sends (alloc_remote_mem_request (to_u32 remote_node) memory_size false password)
        ∷ writes_of testsize test_key remote_addr
      ++ sends (free_request remote_addr) ∷ []

  write_all-Sent :
      (remote_node : ℤ) (write remote_addr : ℕ) (s : Client W)
      → s.client_sock ≢ minus_one
      → let test_key =
          (Calls.alloc_remote_mem os junk (to_u32 remote_node) memory_size false password s).0 in
        (end : End) × (s' : Client W) × IsOver end
        × (write_all os junk remote_node write remote_addr s ≡ some (end, s'))
        × Sent log (later_requests remote_node remote_addr (to_u32 test_key)) s s'
  unfolding write_all Calls.alloc_remote_mem
  write_all-Sent remote_node write remote_addr s open_ =
      let req = alloc_remote_mem_request (to_u32 remote_node) memory_size false password in
      let first = int_call-Sent os junk shm log l s req open_ in
      let open₁ = stays_open first open_ in
      let writes = write_sizes-Sent testsize _ remote_addr _ open₁ in
      let (end, s', ended, done, last) =
        finish-Sent write remote_addr _ (stays_open writes open₁) in
      (end, s', ended, done, Sent-trans first (Sent-trans writes last))

  module _ (memset : Memset W)
      (fill : (addr byte count : ℕ) (w : W)
        → (memset addr byte count w ≡ none)
          ⊎ ((w' : W) × (memset addr byte count w ≡ some w')
              × (log w' ≡ log w ++ sets addr byte count ∷ []))) where
    -- The program from the call of `memset` on.
    abbrev pub AfterFill : ℕ → ℕ → ℤ → Client W → Client W → End → Client W → Type 0
    AfterFill write' remote_addr' remote_node s s₁ end s' =
        ((memset write' 54 (1024 * 64) s₁.world ≡ none)
          × (end ≡ crashes)
          × Sent log (sends alloc_request ∷ []) s s')
        ⊎ ((w : W) × (memset write' 54 (1024 * 64) s₁.world ≡ some w)
            × let test_key =
                to_u32
                  (Calls.alloc_remote_mem os junk (to_u32 remote_node) memory_size false password
                    (record s₁ { world = w })).0 in
              IsOver end
              × Sent log
                  (sends alloc_request
                    ∷ sets write' 54 (1024 * 64)
                    ∷ later_requests remote_node remote_addr' test_key)
                  s s'
              × (length (writes_of testsize test_key remote_addr') ≡ 120)
              × All (Fits (1024 * 64)) (writes_of testsize test_key remote_addr'))

    -- What the program has done when its allocation has had this result.
    abbrev pub Writes : ℕ → ℕ → ℕ → ℤ → Client W → ((ℤ × ℕ × ℕ) × Client W) → Type 0
    Writes local_at write remote_addr remote_node s ((n, write', remote_addr'), s₁) =
        (end : End) × (s' : Client W) × (init_log os junk memset shm local_at write remote_addr
            remote_node s
          ≡ some (end, s'))
        × (((is_neg n ≡ true) × (end ≡ exits) × Sent log (sends alloc_request ∷ []) s s')
            ⊎ ((is_neg n ≡ false) × AfterFill write' remote_addr' remote_node s s₁ end s'))

    after_fill :
        (write' remote_addr' : ℕ) (remote_node : ℤ) (s s₁ : Client W) (w : W)
        → s₁.client_sock ≢ minus_one
        → Sent log (sends alloc_request ∷ []) s s₁
        → memset write' 54 (1024 * 64) s₁.world ≡ some w
        → log w ≡ log s₁.world ++ sets write' 54 (1024 * 64) ∷ []
        → (end : End) × (s' : Client W) × (write_all os junk remote_node write' remote_addr'
              (record s₁ { world = w })
            ≡ some (end, s'))
          × AfterFill write' remote_addr' remote_node s s₁ end s'
    after_fill write' remote_addr' remote_node s s₁ w open_ asked set grown =
        let filled : Sent log (sets write' 54 (1024 * 64) ∷ []) s₁ (record s₁ { world = w }) =
          record { same = refl; added = grown } in
        let (end, s', ended, done, sent) = write_all-Sent remote_node write' remote_addr' _ open_ in
        (
          end,
          s',
          done,
          inr (
            w,
            set,
            (
              ended,
              Sent-trans asked (Sent-trans filled sent),
              length-writes_of _ remote_addr',
              writes_of-Fits testsize _ remote_addr' testsize_small,
            ),
          ),
        )

    after_alloc :
        (local_at write remote_addr : ℕ) (remote_node : ℤ) (s : Client W)
        (r : (ℤ × ℕ × ℕ) × Client W)
        → s.client_sock ≢ minus_one
        → Calls.alloc_local_mem os junk shm memory_name memory_size local_at write remote_addr s
          ≡ some r
        → Sent log (sends alloc_request ∷ []) s r.1
        → Writes local_at write remote_addr remote_node s r
    unfolding init_log
    after_alloc local_at write remote_addr remote_node s ((n, write', remote_addr'), s₁) open_ e
          asked =
        elim (Bool-cases (is_neg n)) [
          | inl refused ↦ (exits, s₁, rw (e, init_log, refused) refl, inl (refused, refl, asked))
          | inr given ↦ elim (fill write' 54 (1024 * 64) s₁.world) [
            | inl fault ↦ (
              crashes,
              s₁,
              rw (e, init_log, given, fault) refl,
              inr (given, inl (fault, refl, asked)),
            )
            | inr (w, set, grown) ↦
                let (end, s', done, rest) =
                  after_fill write' remote_addr' remote_node s s₁ w (stays_open asked open_) asked
                    set grown in
                (end, s', rw (e, init_log, given, set) done, inr (given, rest))
          ]
        ]

    -- The program on a connected client whose calls of the operating system succeed (`Logs`), where
    -- `memset` either faults or sets the bytes that it is asked to set (`fill`). The program ends. If
    -- its shared memory is refused it has sent the request for it alone, and exits; if `memset` faults
    -- it has sent that request alone, and is killed. Otherwise it has asked, in this order, for the
    -- shared memory; for 64 KiB of the byte 0x36 at the address that it was given; for the remote
    -- memory; for 120 writes that name the handle and the remote address that it was given; and for
    -- the shared memory to be freed; and it exits or returns. No write is of more bytes than have been set, and each lies
    -- within the remote memory.
    pub init_log-Writes :
        (local_at write remote_addr : ℕ) (remote_node : ℤ) (s : Client W)
        → s.client_sock ≢ minus_one
        → (r : (ℤ × ℕ × ℕ) × Client W) × (Calls.alloc_local_mem os junk shm memory_name memory_size
              local_at write remote_addr s
            ≡ some r)
          × Writes local_at write remote_addr remote_node s r
    unfolding Calls.alloc_local_mem alloc_local_mem_request
    init_log-Writes local_at write remote_addr remote_node s open_ =
        let asked = response-Sent os junk shm log l s alloc_request open_ in
        let answer = response os junk alloc_request s in
        let r =
          map_local os junk shm memory_name memory_size local_at write remote_addr answer.0
            answer.1 in
        let mapped =
          map_local-Sent os junk shm log l memory_name memory_size local_at write remote_addr
            answer.0 answer.1 in
        (
          r,
          refl,
          after_alloc local_at write remote_addr remote_node s r open_ refl
              (Sent-trans asked mapped),
        )
