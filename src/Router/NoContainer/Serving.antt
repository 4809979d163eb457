-- ===== src/Router/NoContainer/Serving.antt =====
-- What a thread of router/test_router.cpp in the build with NO_CONTAINER does to the variables of
-- router/lib/routing.cpp.
use freelite.Base.{ℕ, zero, suc, ℤ, pos, is_neg, eq_ℤ, ◌≡◌, refl, ◌∙◌, arith, inl, inr}
use freelite.Os.{Stream, Sockets}
use freelite.Routing.{Routing, Router}
use freelite.Rpc.{RpcReqMsg, RpcRspMsg}
use freelite.Router.{Env, Outcome, responds, unknown_code, undefined, waits}
use freelite.Router.Rule.{if-both}
use freelite.Router.Serving.{Leaves-nothing, Status-cases}
use freelite.Router.Server.{Session, Status, in_world, reply, settle}
use freelite.Router.NoContainer.{host_dispatch}
use freelite.Router.NoContainer.Server.{
  host_round, host_rounds, host_server_accept_request, host_dispatch-rule,
}

module _ {W : Type 0} (e : Env W) (net : Stream W RpcRspMsg RpcReqMsg) (client_sock : ℤ) where
  abbrev HasRouting : Routing → Status × Session W → Type 0
  HasRouting k r = r.1.router.routing ≡ k

  settle-HasRouting :
      (s : Session W) (r : Outcome × Router W) (k : Routing)
      → r.1.routing ≡ k
      → HasRouting k (settle net client_sock s r)
  unfolding settle reply
  settle-HasRouting s (responds rsp, r) k h =
      if-both (HasRouting k) (is_neg (net.send client_sock rsp r.world).0) h h
  settle-HasRouting s (unknown_code, r) k h = h
  settle-HasRouting s (undefined, r) k h = h
  settle-HasRouting s (waits, r) k h = h

  host_round-HasRouting :
      (fuel : ℕ) (s : Session W) → HasRouting s.router.routing (host_round e net client_sock fuel s)
  unfolding host_round
  host_round-HasRouting fuel s =
      let received = net.recv client_sock s.req s.router.world in
      let s' = in_world received.1 (record s { req = received.0.1 }) in
      let k = s.router.routing in
      if-both (HasRouting k) (is_neg received.0.0) refl (
        if-both (HasRouting k) (eq_ℤ received.0.0 (pos 0)) refl (
          settle-HasRouting s' (host_dispatch e s'.rsp fuel s'.req s'.router) k (
            host_dispatch-rule e _ (Leaves-nothing e) s'.rsp (λ r. r.routing ≡ k) (λ r w _ h. h)
              s'.router refl fuel s'.req)))

  host_rounds-HasRouting :
      (n fuel : ℕ) (s : Session W)
      → HasRouting s.router.routing (host_rounds e net client_sock n fuel s)
  unfolding host_rounds
  host_rounds-HasRouting zero fuel s = refl
  host_rounds-HasRouting (suc n) fuel s =
      let first = host_round-HasRouting fuel s in
      let later = host_rounds-HasRouting n fuel (host_round e net client_sock fuel s).1 in
      elim (Status-cases (host_round e net client_sock fuel s).0) [
        | inl goes_on ↦ rw (goes_on, host_rounds) (later ∙ first)
        | inr stops ↦ ground (arith, first, stops)
      ]

  -- In the build with NO_CONTAINER, the thread of a client leaves the connection to the manager and
  -- the two maps as they are, however many requests the client sends and whatever is in them.
  pub host_server_accept_request-HasRouting :
      (socks : Sockets W) (n fuel : ℕ) (r : Router W)
      → (host_server_accept_request e net client_sock socks n fuel r).1.router.routing ≡ r.routing
  unfolding host_server_accept_request
  host_server_accept_request-HasRouting socks n fuel r =
      if-both (HasRouting r.routing) (is_neg (socks.getpeername client_sock r.world).0.0) refl
        (host_rounds-HasRouting n fuel _)
