-- ===== src/TestJoin.antt =====
-- client/test_join.c: an application joins and asks for its id.
use freelite.Base.{
  ℕ, ℤ, pos, minus_one, Bytes, Option, none, some, ◌≡◌, ◌≢◌, refl, sym, ap, ◌∙◌, arith,
}
use mathlib.Core.Path.{subst, ap₂}
use freelite.Routing.{Router, vcm_join, vcm_get_node_id}
use freelite.Routing.Caching.{vcm_get_node_id-vcm_join}
use freelite.Rpc.{RpcReqMsg, RpcRspMsg, join_code, join_req}
use freelite.Router.{Env, responds, with_int}
use freelite.Router.Dispatch.{dispatch}
use freelite.Client.{Client, ClientOs, rpc_handler, exchange}
use freelite.Client.Stubs.{join_request, get_node_id_request}
use freelite.Client.Calls
use freelite.Client.Calls.{response, int_call}
use freelite.Container.{Connects, application_response}
use freelite.Listener.Startup.{manager_ip}

-- `main`: the two numbers that it prints.
unfoldable pub test_join :
    {W : Type 0} → ClientOs W → RpcRspMsg → Client W → Option ((ℤ × ℤ) × Client W)
test_join os junk s = elim (Calls.join os junk manager_ip (pos 18500) (pos 1) s) [
  | none ↦ none
  | some (v, s') ↦ let r = Calls.get_node_id os junk s' in some ((v, r.0), r.1)
]

-- The request of the first call.
abbrev connect_request : RpcReqMsg
connect_request = record {
  func_code = join_code;
  msg_body = join_req (record { input_str = manager_ip; eth_port = pos 18500; ib_port = pos 1 });
}

module _ {W V : Type 0} (os : ClientOs W) (e : Env V) (rsp junk : RpcRspMsg) (fuel : ℕ)
    (cid : Bytes) (router_of : W → Router V) where
  -- A call that is answered leaves the socket as it is.
  answered_keeps_socket :
      (s : Client W) (req : RpcReqMsg) (out : RpcRspMsg) (r : Router V)
      → s.client_sock ≢ minus_one
      → Connects os s.client_sock e rsp fuel cid router_of
      → dispatch e rsp fuel cid req (router_of s.world) ≡ (responds out, r)
      → (int_call os junk req s).1.client_sock ≡ s.client_sock
  unfolding int_call response rpc_handler exchange
  answered_keeps_socket s req out r open_ c h =
      let got = c.receives req junk out s.world r h in ground (arith, c.sends req s.world, got)

  join_answer :
      (r : Router V)
      → let got = vcm_join e.vcm e.router_nid cid r in
        dispatch e rsp fuel cid connect_request r ≡ (responds (with_int rsp got.0), got.1)
  unfolding dispatch
  join_answer r = refl

  node_answer :
      (r : Router V)
      → dispatch e rsp fuel cid get_node_id_request r
        ≡ (responds (with_int rsp (vcm_get_node_id e.vcm cid r)), r)
  unfolding dispatch get_node_id_request
  node_answer r = refl

  -- An application that is connected to a thread of its router (`Connects`) runs the program. It
  -- ends, and prints one number twice: what the router's `vcm_join` gives for the container, -1
  -- included.
  pub test_join-agrees :
      (s : Client W)
      → s.client_sock ≢ minus_one
      → Connects os s.client_sock e rsp fuel cid router_of
      → let v = (vcm_join e.vcm e.router_nid cid (router_of s.world)).0 in
        (s' : Client W) × (test_join os junk s ≡ some ((v, v), s'))
  unfolding test_join Calls.join Calls.get_node_id Calls.text_call join_request
  test_join-agrees s open_ c =
      let r = router_of s.world in
      let got = vcm_join e.vcm e.router_nid cid r in
      let said =
        application_response os e rsp junk fuel cid router_of s connect_request (with_int rsp got.0)
          got.1 open_ c (join_answer r) in
      let s₁ = (int_call os junk connect_request s).1 in
      let same = answered_keeps_socket s connect_request _ got.1 open_ c (join_answer r) in
      let asked =
        application_response os e rsp junk fuel cid router_of s₁ get_node_id_request
          (with_int rsp (vcm_get_node_id e.vcm cid got.1)) got.1 (λ h. open_ (sym same ∙ h))
          (subst (λ fd. Connects os fd e rsp fuel cid router_of) (sym same) c)
          (ap (dispatch e rsp fuel cid get_node_id_request) said.1 ∙ node_answer got.1) in
      let s₂ = (int_call os junk get_node_id_request s₁).1 in
      (
        s₂,
        ap₂ (λ v v'. some ((v, v'), s₂)) said.0
            (asked.0 ∙ vcm_get_node_id-vcm_join e.vcm e.router_nid cid r),
      )
