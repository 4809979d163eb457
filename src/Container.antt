-- ===== src/Container.antt =====
-- An application in a container, from its call of client/lib/lite-lib.c to the kernel and back: the
-- client's `rpc_handler` (client/lib/rpc.c) and the router's `switch` (router/test_router.cpp)
-- together.
pub mod Pipe
pub mod LocalMemory
mod Tests
use freelite.Base.{ℕ, ℤ, minus_one, is_neg, false, List, Option, some, Bytes, ◌≡◌, ◌≢◌, ap, arith}
use freelite.Routing.{Router}
use freelite.Lite.{Arg}
use freelite.Rpc.{RpcReqMsg, RpcRspMsg}
use freelite.Router.{Env, responds}
use freelite.Router.Dispatch.{dispatch}
use freelite.Router.Translation.{Api, request}
use freelite.Router.KernelCalls.{target, kernel_call, locate, dispatch-kernel_call}
use freelite.Client.{Client, ClientOs, rpc_handler, exchange}
use freelite.Client.Calls.{int_call, response}

-- The client's socket leads to a thread of the router: a request can be sent, and if the router's
-- `switch` responds to it, that response is what the client receives next, and the router's state is
-- the one that the `switch` leaves. `rsp` is the thread's buffer, and `cid` the id that it has read.
pub record Connects {W V : Type 0} (os : ClientOs W) (fd : ℤ) (e : Env V) (rsp : RpcRspMsg)
    (fuel : ℕ) (cid : Bytes) (router_of : W → Router V) : Type 0 where
  pub sends : (req : RpcReqMsg) (w : W) → is_neg (os.net.send fd req w).0 ≡ false
  pub receives :
      (req : RpcReqMsg) (buffer out : RpcRspMsg) (w : W) (r : Router V)
      → dispatch e rsp fuel cid req (router_of w) ≡ (responds out, r)
      → let got = os.net.recv fd buffer (os.net.send fd req w).1 in
        (is_neg got.0.0 ≡ false) × (got.0.1 ≡ out) × (router_of got.1 ≡ r)

module _ {W V : Type 0} (os : ClientOs W) (e : Env V) (rsp junk : RpcRspMsg) (fuel : ℕ)
    (cid : Bytes) (router_of : W → Router V) where
  pub application_answer :
      (s : Client W) (req : RpcReqMsg) (out : RpcRspMsg) (r : Router V)
      → s.client_sock ≢ minus_one
      → Connects os s.client_sock e rsp fuel cid router_of
      → dispatch e rsp fuel cid req (router_of s.world) ≡ (responds out, r)
      → let done = response os junk req s in (done.0 ≡ out) × (router_of done.1.world ≡ r)
  unfolding response rpc_handler exchange
  application_answer s req out r open_ c h =
      let got = c.receives req junk out s.world r h in ground (arith, c.sends req s.world, got)

  pub application_response :
      (s : Client W) (req : RpcReqMsg) (out : RpcRspMsg) (r : Router V)
      → s.client_sock ≢ minus_one
      → Connects os s.client_sock e rsp fuel cid router_of
      → dispatch e rsp fuel cid req (router_of s.world) ≡ (responds out, r)
      → let done = int_call os junk req s in (done.0 ≡ out.int_rsp) × (router_of done.1.world ≡ r)
  unfolding int_call
  application_response s req out r open_ c h =
      let (answer, router) = application_answer s req out r open_ c h in
      (ap (λ m. m.int_rsp) answer, router)

  -- An application that is connected to a router (`Connects`) makes a call that `kernel_call` lists
  -- for the located node: a call other than those that poll, that join or ask for the vid, and those
  -- of shared memory, whose texts fit and whose reply is not too big. The application is given the
  -- result of the listed system call, which the router's kernel has executed once, and not what its
  -- uninitialised variable held.
  pub application_call :
      (s : Client W) (call : Api) (req : RpcReqMsg) (nr : ℕ) (args : List Arg)
      → s.client_sock ≢ minus_one
      → Connects os s.client_sock e rsp fuel cid router_of
      → request call ≡ some req
      → let located = locate e rsp (target call) (router_of s.world) in
        kernel_call located.0 call ≡ some (nr, args)
        → let r = e.kernel.syscall nr args located.1.world in
          let done = int_call os junk req s in
          (done.0 ≡ r.0) × (router_of done.1.world ≡ record located.1 { world = r.1 })
  application_call s call req nr args open_ c h k =
      application_response s req _ _ open_ c
        (dispatch-kernel_call e rsp fuel cid call req (router_of s.world) nr args h k)
