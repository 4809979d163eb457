-- ===== src/MockRouter/Agreement.antt =====
-- Which requests client/test_server.c and the router (router/test_router.cpp) answer.
use freelite.Base.{ℕ, Bytes, none, ◌≡◌, ◌↔◌, arith}
use freelite.Routing.{Router}
use freelite.Rpc.{RpcReqMsg, RpcRspMsg}
use freelite.Router.{Env, unknown_code}
use freelite.Router.Dispatch.{dispatch}
use freelite.MockRouter.{answer}

module _ {W : Type 0} (e : Env W) (rsp : RpcRspMsg) where
  -- The stand-in hangs up on a request at exactly the function codes at which the router does; the
  -- router then has changed nothing.
  pub refuses_the_same :
      (fuel : ℕ) (cid : Bytes) (req : RpcReqMsg) (s : Router W) (buffer : RpcRspMsg)
      → (answer req.func_code buffer ≡ none) ↔ (dispatch e rsp fuel cid req s ≡ (unknown_code, s))
  unfolding answer dispatch
  refuses_the_same fuel cid req s buffer = (λ h. ground arith, λ h. ground arith)
