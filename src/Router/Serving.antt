-- ===== src/Router/Serving.antt =====
-- What the threads of router/test_router.cpp do to the two maps of router/lib/routing.cpp.
use freelite.Base.{
  ℕ, zero, suc, ℤ, pos, is_neg, eq_ℤ, Bytes, Option, none, some, ◌≡◌, ◌≢◌, ◌⊎◌, refl, arith, inl,
  inr,
}
use freelite.Os.{Stream, Sockets}
use freelite.Routing.{Router}
use freelite.Routing.Caching.{
  Extends, Extends-refl, Extends-trans, vcm_join-Extends, vcm_vid_nid-Extends,
}
use freelite.Rpc.{RpcReqMsg, RpcRspMsg}
use freelite.Router.{Env, Outcome, responds, unknown_code, undefined, waits}
use freelite.Router.Dispatch.{dispatch}
use freelite.Router.Effects.{Leaves}
use freelite.Router.Rule.{if-both, dispatch-rule}
use freelite.Router.Server.{
  Session, Status, running, exited, waiting, broken, uncaught, in_world, reply, settle, round,
  rounds, serve, server_accept_request,
}

pub Status-cases : (t : Status) → (t ≡ running) ⊎ (t ≢ running)
Status-cases running = inl refl
Status-cases exited = inr (λ e. cc)
Status-cases waiting = inr (λ e. cc)
Status-cases broken = inr (λ e. cc)
Status-cases uncaught = inr (λ e. cc)

-- The maps of `s` are kept by whatever changes only the world.
moved : {W : Type 0} (s : Router W) (w : W) → Extends s (record s { world = w })
moved s w = record { cids = λ c v h. h; vids = λ v n h. h }

pub Leaves-nothing : {W : Type 0} (e : Env W) → Leaves e (λ _. tt {0})
Leaves-nothing e = record {
  syscall = λ _ _ _. refl;
  store_word = λ _ _ _. refl;
  elapse = λ _. refl;
  shm_open = λ _ _ _. refl;
  ftruncate = λ _ _ _. refl;
  mmap = λ _ _ _. refl;
  munmap = λ _ _ _. refl;
  shm_unlink = λ _ _. refl;
}

pub dispatch-Extends :
    {W : Type 0} (e : Env W) (rsp : RpcRspMsg) (fuel : ℕ) (cid : Bytes) (req : RpcReqMsg)
    (s : Router W)
    → Extends s (dispatch e rsp fuel cid req s).1
dispatch-Extends e rsp fuel cid req s =
    dispatch-rule e _ (Leaves-nothing e) rsp (Extends s) (λ r w _ h. Extends-trans h (moved r w)) s
      (Extends-refl s) (λ v. vcm_vid_nid-Extends e.vcm v s) fuel cid req
      (vcm_join-Extends e.vcm e.router_nid cid s)

module _ {W : Type 0} (e : Env W) (net : Stream W RpcRspMsg RpcReqMsg) (client_sock : ℤ) where
  reply-Extends : (s : Session W) → Extends s.router (reply net client_sock s).1.router
  unfolding reply
  reply-Extends s =
      if-both (λ (r : Status × Session W). Extends s.router r.1.router)
        (is_neg (net.send client_sock s.rsp s.router.world).0) (moved _ _) (moved _ _)

  settle-Extends :
      (s : Session W) (r : Outcome × Router W)
      → Extends s.router r.1
      → Extends s.router (settle net client_sock s r).1.router
  unfolding settle
  settle-Extends s (responds rsp, r) h =
      Extends-trans h (reply-Extends (record s { router = r; rsp = rsp }))
  settle-Extends s (unknown_code, r) h = Extends-trans h (moved _ _)
  settle-Extends s (undefined, r) h = h
  settle-Extends s (waits, r) h = h

  round-Extends :
      (fuel : ℕ) (cid : Bytes) (s : Session W)
      → Extends s.router (round e net client_sock fuel cid s).1.router
  unfolding round
  round-Extends fuel cid s =
      let received = net.recv client_sock s.req s.router.world in
      let s' = in_world received.1 (record s { req = received.0.1 }) in
      let P : Status × Session W → Type 0 = λ r. Extends s.router r.1.router in
      if-both P (is_neg received.0.0) (moved _ _) (
        if-both P (eq_ℤ received.0.0 (pos 0)) (moved _ _) (
          Extends-trans (moved _ _) (
            settle-Extends s' (dispatch e s'.rsp fuel cid s'.req s'.router)
              (dispatch-Extends e s'.rsp fuel cid s'.req s'.router))))

  rounds-Extends :
      (n fuel : ℕ) (cid : Bytes) (s : Session W)
      → Extends s.router (rounds e net client_sock n fuel cid s).1.router
  unfolding rounds
  rounds-Extends zero fuel cid s = Extends-refl s.router
  rounds-Extends (suc n) fuel cid s =
      let first = round-Extends fuel cid s in
      let later = rounds-Extends n fuel cid (round e net client_sock fuel cid s).1 in
      elim (Status-cases (round e net client_sock fuel cid s).0) [
        | inl goes_on ↦ rw (goes_on, rounds) (Extends-trans first later)
        | inr stops ↦ ground (arith, first, stops)
      ]

  serve-Extends :
      (n fuel : ℕ) (cid : Option Bytes) (s : Session W)
      → Extends s.router (serve e net client_sock n fuel cid s).1.router
  unfolding serve
  serve-Extends n fuel none s = Extends-refl s.router
  serve-Extends n fuel (some cid) s = rounds-Extends n fuel cid s

  -- A thread of the router forgets nothing, however many requests its client sends and whatever is
  -- in them: a container that had a vid has the same one, and a vid whose nid was known is known to
  -- be on the same node.
  pub server_accept_request-Extends :
      (socks : Sockets W) (n fuel : ℕ) (r : Router W)
      → Extends r (server_accept_request e net client_sock socks n fuel r).1.router
  unfolding server_accept_request
  server_accept_request-Extends socks n fuel r =
      if-both (λ (r' : Status × Session W). Extends r r'.1.router)
        (is_neg (socks.getpeername client_sock r.world).0.0) (moved _ _)
        (Extends-trans (moved _ _) (serve-Extends n fuel _ _))
