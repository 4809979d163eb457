-- ===== src/Client/Failures.antt =====
-- What an application sees of an error (client/lib/lite-lib.c).
use freelite.Base.{◌⊎◌, inl, inr, ℕ, minus_one, is_neg, Bytes, true, false, some, ◌≡◌, ◌≢◌, arith}
use freelite.Rpc.{RpcReqMsg, RpcRspMsg, remote_addr}
use freelite.Shm.{SharedMemory, map_failed}
use freelite.Client.{Client, ClientOs, rpc_handler, exchange}
use freelite.Client.Stubs.{alloc_local_mem_request}
use freelite.Client.Calls.{response, int_call, alloc_local_mem}

module _ {W : Type 0} (os : ClientOs W) (junk : RpcRspMsg) where
  -- When a connected client's request cannot be sent, or the router sends no answer, so that `recv`
  -- leaves the buffer as it is, whether it fails or returns 0 because the router has hung up, the
  -- application is given the number that the uninitialised variable held, and no error code.
  pub no_answer_is_junk :
      (req : RpcReqMsg) (s : Client W)
      → s.client_sock ≢ minus_one
      → (is_neg (os.net.send s.client_sock req s.world).0 ≡ true)
        ⊎ ((m : RpcRspMsg) (w : W) → (os.net.recv s.client_sock m w).0.1 ≡ m)
      → (int_call os junk req s).0 ≡ junk.int_rsp
  unfolding int_call response rpc_handler exchange
  no_answer_is_junk req s h (inl unsent) = ground arith
  no_answer_is_junk req s h (inr silent) =
      ground (arith, silent junk (os.net.send s.client_sock req s.world).1)

  -- When the name fits the request, the router's response has no error code, the object opens, and
  -- the client's own `mmap` fails, `alloc_local_mem` returns the router's result all the same, and
  -- the local address that it gives is MAP_FAILED. (The caller's variable does not lie at the
  -- address MAP_FAILED.)
  pub map_failure_is_success :
      (shm : SharedMemory W) (name : Bytes) (size local_at local remote : ℕ) (req : RpcReqMsg)
      (s : Client W)
      → local_at ≢ map_failed
      → alloc_local_mem_request name size ≡ some req
      → let r = response os junk req s in
        let opened = shm.shm_open name false r.1.world in
        is_neg r.0.int_rsp ≡ false
        → is_neg opened.0 ≡ false
        → (shm.mmap size opened.0 opened.1).0 ≡ map_failed
        → (t : Client W) × (alloc_local_mem os junk shm name size local_at local remote s
            ≡ some ((r.0.int_rsp, map_failed, remote_addr r.0.msg_body), t))
  unfolding alloc_local_mem
  map_failure_is_success shm name size local_at local remote req s at fits got opened failed =
      let r = response os junk req s in
      let mapped =
        shm.mmap size (shm.shm_open name false r.1.world).0 (shm.shm_open name false r.1.world).1 in
      (record r.1 { world = mapped.1 }, rw (fits, alloc_local_mem) (ground arith))
