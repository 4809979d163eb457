-- ===== src/Deployment.antt =====
-- The whole system: applications (client/lib), the routers of their hosts (router) and the manager
-- (vcm). A history of requests, in which one application joins, and another one on any host uses the
-- id that the first was given.
mod Tests
use freelite.Base.{
  ℕ, ◌<◌, ℤ, minus_one, is_neg, to_u32, to_i32, Bytes, Bytes_discrete, Bool, int_max, List, [], ◌∷◌,
  ◌++◌, some, false, ◌≡◌, ◌≢◌, ◌⊎◌, refl, sym, ap, ◌∙◌, arith, length, some_injective,
}
use freelite.Base.UnorderedMap.{find}
use freelite.Vcm
use freelite.Vcm.{Vcm}
use freelite.Routing.{Router, vcm_join, vcm_vid_nid}
use freelite.Routing.Caching.{vcm_join-kept}
use freelite.Lite.{Arg, uint, flag, int}
use freelite.Rpc.{RpcReqMsg, RpcRspMsg, join_code}
use freelite.Router.{Env, responds, with_int}
use freelite.Router.Dispatch.{dispatch}
use freelite.Router.Effects.{Leaves}
use freelite.Router.Serving.{dispatch-Extends}
use freelite.Router.Translation.{Api, alloc_remote_mem}
use freelite.Client.{Client, ClientOs}
use freelite.Client.Stubs.{join_request, alloc_remote_mem_request}
use freelite.Client.Calls
use freelite.Client.Calls.{int_call}
use freelite.Container.{Connects, application_call, application_response}
use freelite.Cluster.{Cluster, update-all, update_self, router_at, start, runs, runs-append}
use freelite.Cluster.Delivery.{Delivers}
use freelite.Cluster.Requests.{Request, nid, serve, serve_all, requests-reach_owner}

-- An application that is connected to a thread of the router of host `e`, in state `r`.
pub record Attached (A : Type 0) {W : Type 0} (e : Env W) (r : Router W) : Type 0 where
  pub os : ClientOs A
  pub junk : RpcRspMsg
  pub rsp : RpcRspMsg
  pub fuel : ℕ
  pub cid : Bytes
  pub router_of : A → Router W
  pub client : Client A
  pub is_open : client.client_sock ≢ minus_one
  pub connects : Connects os client.client_sock e rsp fuel cid router_of
  pub current : router_of client.world ≡ r

-- The request that the router `i` of an application receives.
abbrev pub sent_by :
    {A W : Type 0} {e : Env W} {r : Router W} → ℕ → Attached A e r → RpcReqMsg → Request
sent_by i a req = record { router = i; cid = a.cid; rsp = a.rsp; fuel = a.fuel; req = req }

join_request-code :
    (text : Bytes) (eth ib : ℤ) (req : RpcReqMsg)
    → join_request text eth ib ≡ some req
    → req.func_code ≡ join_code
unfolding join_request
join_request-code text eth ib req h = ground arith

join-int_call :
    {A : Type 0} (os : ClientOs A) (junk : RpcRspMsg) (text : Bytes) (eth ib v : ℤ)
    (req : RpcReqMsg) (s s' : Client A)
    → join_request text eth ib ≡ some req
    → Calls.join os junk text eth ib s ≡ some (v, s')
    → (int_call os junk req s).0 ≡ v
unfolding Calls.join Calls.text_call
join-int_call os junk text eth ib v req s s' fits given =
    ap (λ r. r.0) (some_injective (rw (fits, Calls.join, Calls.text_call) at given))

dispatch-join :
    {W : Type 0} (e : Env W) (rsp : RpcRspMsg) (fuel : ℕ) (cid : Bytes) (req : RpcReqMsg)
    (s : Router W)
    → req.func_code ≡ join_code
    → let r = vcm_join e.vcm e.router_nid cid s in
      dispatch e rsp fuel cid req s ≡ (responds (with_int rsp r.0), r.1)
unfolding dispatch
dispatch-join e rsp fuel cid req s h = rw (h, dispatch) refl

module _ {W : Type 0} (env : ℕ → Env W) where
  -- What a router has told a client of its vid, no request makes it forget.
  serve-keeps :
      (t : Cluster W) (q : Request) (i : ℕ) (c : Bytes) (v : ℤ)
      → find Bytes_discrete c (t.routing i).cid_vid_map ≡ some v
      → find Bytes_discrete c ((serve env t q).routing i).cid_vid_map ≡ some v
  unfolding serve
  serve-keeps t q i c v =
      update-all
        (λ j x.
          find Bytes_discrete c (t.routing j).cid_vid_map ≡ some v
          → find Bytes_discrete c x.cid_vid_map ≡ some v)
        t.routing q.router _
        (λ h.
          (dispatch-Extends (env q.router) q.rsp q.fuel q.cid q.req (router_at t q.router)).cids c v
            h)
        (λ j h. h) i

  runs-keeps :
      (t : Cluster W) (qs : List Request) (i : ℕ) (c : Bytes) (v : ℤ)
      → find Bytes_discrete c (t.routing i).cid_vid_map ≡ some v
      → find Bytes_discrete c ((runs (serve env) t qs).routing i).cid_vid_map ≡ some v
  unfolding runs
  runs-keeps t [] i c v h = h
  runs-keeps t (q ∷ qs) i c v h = runs-keeps (serve env t q) qs i c v (serve-keeps t q i c v h)

  -- An application that is given a vid for its join is in its router's map with it.
  join-kept :
      {A : Type 0} (t : Cluster W) (i : ℕ) (a : Attached A (env i) (router_at t i))
      (req : RpcReqMsg) (v : ℤ)
      → req.func_code ≡ join_code
      → (int_call a.os a.junk req a.client).0 ≡ v
      → is_neg v ≡ false
      → find Bytes_discrete a.cid ((serve env t (sent_by i a req)).routing i).cid_vid_map ≡ some v
  unfolding serve
  join-kept t i a req v code given good =
      let e = env i in
      let s = router_at t i in
      let joined = dispatch-join e a.rsp a.fuel a.cid req s code in
      let said =
        application_response a.os e a.rsp a.junk a.fuel a.cid a.router_of a.client req _ _ a.is_open
          a.connects (ap (dispatch e a.rsp a.fuel a.cid req) a.current ∙ joined) in
      let stored = vcm_join-kept e.vcm e.router_nid a.cid s in
      rw (update_self t.routing i (dispatch e a.rsp a.fuel a.cid req s).1.routing, joined)
        (stored (ap is_neg (sym said.0 ∙ given) ∙ good) ∙ ap some (sym said.0 ∙ given))

  module _ (vcm_of : W → Vcm) (d : (i : ℕ) → Delivers (env i).vcm vcm_of)
      (l : (i : ℕ) → Leaves (env i) vcm_of) (w : W) (fds : ℕ → ℤ) (fresh : vcm_of w ≡ Vcm.init)
      (before after : List Request) where
    registered :
        {A : Type 0} (i : ℕ)
        (a : Attached A (env i) (router_at (serve_all env (start w fds) before) i)) (text : Bytes)
        (eth ib : ℤ) (req : RpcReqMsg) (a' : Client A) (node_id : ℕ)
        → join_request text eth ib ≡ some req
        → Calls.join a.os a.junk text eth ib a.client ≡ some (to_i32 node_id, a')
        → is_neg (to_i32 node_id) ≡ false
        → find Bytes_discrete a.cid
            ((serve_all env (start w fds) (before ++ sent_by i a req ∷ after)).routing
              i).cid_vid_map
          ≡ some (to_i32 node_id)
    unfolding runs serve_all
    registered i a text eth ib req a' node_id fits given good =
        let t = serve_all env (start w fds) before in
        let q = sent_by i a req in
        rw (runs-append (serve env) (start w fds) before (q ∷ after)) (
          runs-keeps (serve env t q) after i a.cid (to_i32 node_id) (
            join-kept t i a req (to_i32 node_id) (join_request-code text eth ib req fits)
              (join-int_call a.os a.junk text eth ib _ req a.client a' fits given) good))

    -- The networks carry the routers' messages to the manager or lose them (`Delivers`), kernels and
    -- shared memory leave the manager alone (`Leaves`), the manager starts empty, and fewer than
    -- 2 ^ 31 - 1 requests are made. When the function `join` has given a connected application an id
    -- that is no error, and, after any further requests of any clients, another connected application
    -- calls `alloc_remote_mem` with that id, then what it is given is the result of the one system
    -- call for memory on the node of the first application's router, or on the node -1.
    pub joined_is_reached :
        {A B : Type 0} (i j : ℕ)
        (a : Attached A (env i) (router_at (serve_all env (start w fds) before) i)) (text : Bytes)
        (eth ib : ℤ) (req : RpcReqMsg) (a' : Client A) (node_id : ℕ)
        → join_request text eth ib ≡ some req
        → Calls.join a.os a.junk text eth ib a.client ≡ some (to_i32 node_id, a')
        → is_neg (to_i32 node_id) ≡ false
        → let history = before ++ sent_by i a req ∷ after in
          length history < int_max
          → let t = serve_all env (start w fds) history in
            (b : Attached B (env j) (router_at t j)) (size : ℕ) (atomic_flag : Bool) (password : ℤ)
            → let s = (vcm_vid_nid (env j).vcm (to_i32 node_id) (router_at t j)).1 in
              (n : ℤ) × ((n ≡ minus_one) ⊎ (n ≡ nid env i))
              × ((Calls.alloc_remote_mem b.os b.junk node_id size atomic_flag password b.client).0
                  ≡ ((env j).kernel.syscall 409
                      (uint (to_u32 n) ∷ uint size ∷ flag atomic_flag ∷ int password ∷ [])
                      s.world).0)
    unfolding Calls.alloc_remote_mem
    joined_is_reached i j a text eth ib req a' node_id fits given good short b size set password =
        let e = env j in
        let h = before ++ sent_by i a req ∷ after in
        let t = serve_all env (start w fds) h in
        let (n, right, done) =
          requests-reach_owner env vcm_of d l w fds fresh h short i j a.cid b.cid node_id size set
            password b.rsp b.fuel (registered i a text eth ib req a' node_id fits given good) in
        let asked = alloc_remote_mem_request node_id size set password in
        let r = (dispatch e b.rsp b.fuel b.cid asked (router_at t j)).1 in
        (
          n,
          right,
          (application_response b.os e b.rsp b.junk b.fuel b.cid b.router_of b.client asked _ r
              b.is_open b.connects
              (ap (dispatch e b.rsp b.fuel b.cid asked) b.current ∙ ap (λ o. (o, r)) done)).0,
        )
