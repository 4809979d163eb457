-- ===== src/Cluster/Requests.antt =====
-- The hosts of a cluster as their clients drive them: any number of routers (router/test_router.cpp)
-- with one manager (vcm/vcm.cpp), and a history of requests that clients send to the routers. A
-- request is one step: only its call of routing.cpp, which holds the mutex, touches what routers
-- share, since the kernel and the shared memory leave the manager alone (`Leaves`).
mod Tests
use freelite.Base.{
  ℕ, ◌≤◌, ◌<◌, ℤ, minus_one, to_u32, to_i32, Bytes, Bytes_discrete, Bool, int_max, List, [], ◌∷◌,
  some, ◌≡◌, ◌⊎◌, refl, sym, ap, ◌∙◌, arith, length,
}
use freelite.Base.UnorderedMap.{find}
use freelite.Vcm
use freelite.Vcm.{Vcm}
use freelite.Vcm.Registry.{Refines}
use freelite.Routing.{Router, vcm_vid_nid}
use freelite.Lite.{Arg, uint, flag, int}
use freelite.Rpc.{RpcReqMsg, RpcRspMsg}
use freelite.Router.{Env, Outcome, responds}
use freelite.Router.Dispatch.{dispatch}
use freelite.Router.Effects.{Leaves}
use freelite.Router.Rule.{dispatch-rule}
use freelite.Router.Translation.{Api, alloc_remote_mem}
use freelite.Router.KernelCalls.{dispatch-kernel_call}
use freelite.Client.Stubs.{alloc_remote_mem_request}
use freelite.Cluster.{Cluster, update, router_at, start, runs}
use freelite.Cluster.Delivery.{Delivers}
use freelite.Cluster.Ownership.{Owner, nids_of}
use freelite.Cluster.Calls.{After, vcm_join-After, vcm_vid_nid-After, unchanged}
use freelite.Cluster.Invariant.{
  Inv, Next, start-Inv, After-Next, runs-Inv, Inv-unique, asked-Routed,
}

-- A request, with the router that receives it, the id that the router's thread has read for the
-- client, the thread's response buffer, and the fuel of the polling loops.
pub record Request : Type 0 where
  pub router : ℕ
  pub cid : Bytes
  pub rsp : RpcRspMsg
  pub fuel : ℕ
  pub req : RpcReqMsg

module _ {W : Type 0} (env : ℕ → Env W) where
  abbrev pub nid : ℕ → ℤ
  nid i = (env i).router_nid

  unfoldable pub serve : Cluster W → Request → Cluster W
  serve c q =
      let s = (dispatch (env q.router) q.rsp q.fuel q.cid q.req (router_at c q.router)).1 in
      record { world = s.world; routing = update c.routing q.router s.routing }

  unfoldable pub serve_all : Cluster W → List Request → Cluster W
  unfolding runs serve
  serve_all = runs serve

  module _ (vcm_of : W → Vcm) (d : (i : ℕ) → Delivers (env i).vcm vcm_of)
      (l : (i : ℕ) → Leaves (env i) vcm_of) where
    dispatch-After :
        (owners : List Owner) (c : Cluster W) (q : Request)
        → Inv nid vcm_of owners c
        → length owners < int_max
        → After nid
            (env q.router).vcm
            vcm_of
            (d q.router)
            owners
            q.router
            (dispatch (env q.router) q.rsp q.fuel q.cid q.req (router_at c q.router)).1
    dispatch-After owners c q inv small =
        let i = q.router in
        let e = env i in
        let s = router_at c i in
        let r = inv.manager in
        let t = inv.truthful i in
        dispatch-rule e vcm_of (l i) q.rsp (After nid e.vcm vcm_of (d i) owners i)
          (λ s' w same (more, r', t', few). (more, rw same r', t', few)) s
          (unchanged nid e.vcm vcm_of (d i) owners i s r t)
          (vcm_vid_nid-After nid e.vcm vcm_of (d i) owners i s r t small) q.fuel q.cid q.req
          (vcm_join-After nid e.vcm vcm_of (d i) owners i s r t small q.cid)

    serve-Next :
        (owners : List Owner) (c : Cluster W) (q : Request)
        → Inv nid vcm_of owners c
        → length owners < int_max
        → Next nid vcm_of owners (serve c q)
    unfolding serve
    serve-Next owners c q inv small =
        After-Next nid vcm_of owners c q.router _ inv (dispatch-After owners c q inv small)

    module _ (w : W) (fds : ℕ → ℤ) (fresh : vcm_of w ≡ Vcm.init) (qs : List Request)
        (short : length qs < int_max) where
      kept :
          (owners : List Owner) × Inv nid vcm_of owners (serve_all (start w fds) qs)
          × (length owners ≤ length qs)
      unfolding serve_all
      kept =
          runs-Inv nid vcm_of serve serve-Next [] (start w fds) qs
            (start-Inv nid vcm_of w fds fresh) (omega arith)

      -- The networks carry the routers' messages to the manager or lose them (`Delivers`), kernels
      -- and shared memory leave the manager alone (`Leaves`), and the manager starts empty. After
      -- fewer than 2 ^ 31 - 1 requests to the routers, whatever is in them, two containers never
      -- have the same vid, on one router or on two.
      pub requests-keep_vids_unique :
          (i j : ℕ) (c c' : Bytes) (v : ℤ)
          → let t = serve_all (start w fds) qs in
            find Bytes_discrete c (t.routing i).cid_vid_map ≡ some v
            → find Bytes_discrete c' (t.routing j).cid_vid_map ≡ some v
            → (i ≡ j) × (c ≡ c')
      requests-keep_vids_unique i j c c' v h h' =
          let (owners, inv, few) = kept in
          Inv-unique nid vcm_of owners (serve_all (start w fds) qs) i j c c' v inv h h'

      -- Under those conditions on the network, the kernels and the manager, and after such requests:
      -- a client of any router that names the vid of a container in `alloc_remote_mem` has memory
      -- allocated on the node of that container's router, by the one system call whose result it is
      -- sent, or else the kernel is given the node -1.
      pub requests-reach_owner :
          (i j : ℕ) (c cid : Bytes) (node_id size : ℕ) (atomic_flag : Bool) (password : ℤ)
          (rsp : RpcRspMsg) (fuel : ℕ)
          → let t = serve_all (start w fds) qs in
            find Bytes_discrete c (t.routing i).cid_vid_map ≡ some (to_i32 node_id)
            → let s = (vcm_vid_nid (env j).vcm (to_i32 node_id) (router_at t j)).1 in
              (n : ℤ) × ((n ≡ minus_one) ⊎ (n ≡ nid i))
              × ((dispatch
                    (env j)
                    rsp
                    fuel
                    cid
                    (alloc_remote_mem_request node_id size atomic_flag password)
                    (router_at t j)).0
                  ≡ responds (record rsp {
                    int_rsp =
                        ((env j).kernel.syscall 409
                          (uint (to_u32 n) ∷ uint size ∷ flag atomic_flag ∷ int password ∷ [])
                          s.world).0;
                  }))
      requests-reach_owner i j c cid node_id size atomic_flag password rsp fuel h =
          let (owners, inv, few) = kept in
          let t = serve_all (start w fds) qs in
          let call = alloc_remote_mem node_id size atomic_flag password in
          (
            (vcm_vid_nid (env j).vcm (to_i32 node_id) (router_at t j)).0,
            asked-Routed nid vcm_of (env j).vcm (d j) owners t i j c (to_i32 node_id) inv
                (omega arith) h,
            ap (λ (r : Outcome × Router W). r.0)
                (dispatch-kernel_call (env j) rsp fuel cid call _ (router_at t j) 409 _ refl refl),
          )
