-- ===== src/Container/LocalMemory.antt =====
-- Memory that an application shares with its router: the request of client/lib/lite-lib.c, the object
-- that router/lib/shm.cpp makes for it, and the client's own mapping of that object.
use freelite.Base.{
  ℕ, ℤ, if◌then◌else◌, ap, ◌∙◌, Bool-cases, inl, inr, true, pos, minus_one, is_neg, Bytes, false,
  some, ◌==◌, ◌≡◌, ◌≢◌, refl, arith,
}
use freelite.Routing.{Router}
use freelite.Shm.{SharedMemory, map_failed, alloc_shm_mem, map_shm}
use freelite.Rpc.{RpcReqMsg, RpcRspMsg, remote_addr}
use freelite.Router.{Env, responds}
use freelite.Router.Dispatch.{dispatch}
use freelite.Client.{Client, ClientOs}
use freelite.Client.Stubs.{alloc_local_mem_request}
use freelite.Client.Calls.{response, alloc_local_mem}
use freelite.Container.{Connects, application_answer}

module _ {V : Type 0} (e : Env V) (rsp : RpcRspMsg) (fuel : ℕ) (cid : Bytes) where
  -- The object of a name: created, or opened where it cannot be created.
  abbrev pub object_of : Bytes → V → ℤ × V
  object_of name w =
      let created = e.shm.shm_open name true w in
      if is_neg created.0 then e.shm.shm_open name false created.1 else created

  alloc_shm_mem-maps :
      (name : Bytes) (size addr : ℕ) (w : V)
      → let object = object_of name w in
        is_neg object.0 ≡ false
        → let grown = e.shm.ftruncate object.0 size object.1 in
          is_neg grown.0 ≡ false
          → let mapped = e.shm.mmap size object.0 grown.1 in
            (mapped.0 == map_failed) ≡ false
            → alloc_shm_mem e.shm name size addr w ≡ ((pos 0, mapped.0), mapped.1)
  unfolding alloc_shm_mem map_shm
  alloc_shm_mem-maps name size addr w there sized maps =
      elim (Bool-cases (is_neg (e.shm.shm_open name true w).0)) [
        | inl old ↦ ground (arith, rw old at there)
        | inr new ↦ ground arith
      ]

  dispatch-alloc_local_mem :
      (name : Bytes) (size : ℕ) (req : RpcReqMsg) (r : Router V)
      → alloc_local_mem_request name size ≡ some req
      → let made = alloc_shm_mem e.shm name size (remote_addr rsp.msg_body) r.world in
        dispatch e rsp fuel cid req r ≡ (
          responds (record {
            int_rsp = made.0.0;
            msg_body = record rsp.msg_body { descriptor = made.0.1 };
          }),
          record r { world = made.1 },
        )
  unfolding dispatch alloc_local_mem_request
  dispatch-alloc_local_mem name size req r h = ground arith

  module _ {W : Type 0} (os : ClientOs W) (junk : RpcRspMsg) (router_of : W → Router V) where
    -- A connected application asks for shared memory by a name that fits the request. The router can
    -- create the object of that name, or open it if it cannot create it; it can set its size, and it
    -- can map it. The application can open the object, and the address of its variable is not that of
    -- MAP_FAILED. Then the call succeeds. The application has two addresses: what its own `mmap` of
    -- the object of that name with that size returned, and what the router's `mmap` of the object of
    -- the same name, set to the same size, returned.
    pub alloc_local_mem-shared :
        (shm : SharedMemory W) (name : Bytes) (size local_at local remote : ℕ) (req : RpcReqMsg)
        (s : Client W)
        → s.client_sock ≢ minus_one
        → Connects os s.client_sock e rsp fuel cid router_of
        → alloc_local_mem_request name size ≡ some req
        → (local_at == map_failed) ≡ false
        → let object = object_of name (router_of s.world).world in
          is_neg object.0 ≡ false
          → let grown = e.shm.ftruncate object.0 size object.1 in
            is_neg grown.0 ≡ false
            → let theirs = e.shm.mmap size object.0 grown.1 in
              (theirs.0 == map_failed) ≡ false
              → let after = (response os junk req s).1 in
                let opened = shm.shm_open name false after.world in
                is_neg opened.0 ≡ false
                → let ours = shm.mmap size opened.0 opened.1 in
                  (alloc_local_mem os junk shm name size local_at local remote s
                    ≡ some ((pos 0, ours.0, theirs.0), record after { world = ours.1 }))
                  × (router_of after.world ≡ record (router_of s.world) { world = theirs.1 })
    unfolding alloc_local_mem
    alloc_local_mem-shared shm name size local_at local remote req s open_ c fits on_stack there
          sized maps opens =
        let r = router_of s.world in
        let (answer, router) =
          application_answer os e rsp junk fuel cid router_of s req _ _ open_ c
            (dispatch-alloc_local_mem name size req r fits) in
        let made =
          alloc_shm_mem-maps name size (remote_addr rsp.msg_body) r.world there sized maps in
        let fine = ap (λ m. m.0.0) made in
        (
          rw (fits, alloc_local_mem)
              (rw (answer, fine, opens, on_stack, ap (λ m. m.0.1) made) refl),
          router ∙ ap (λ m. record r { world = m.1 }) made,
        )
