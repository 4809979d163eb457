-- ===== src/Cluster/Safety.antt =====
-- What every history of the virtual cluster keeps: vids are unique among the containers of all
-- routers, and no vid is routed to a node that it does not belong to.
use freelite.Base.{
  ℕ, ◌≤◌, ◌<◌, ℤ, minus_one, Bytes, Bytes_discrete, int_max, List, [], some, ◌≡◌, ◌⊎◌, arith,
  length,
}
use freelite.Base.UnorderedMap.{find}
use freelite.Os.{Stream}
use freelite.Vcm
use freelite.Vcm.{Vcm, VcmMsg}
use freelite.Routing.{vcm_vid_nid}
use freelite.Routing.Caching.{Call, joins, asks, step}
use freelite.Cluster.Invariant.{
  Inv, Next, start-Inv, After-Next, runs-Inv, Inv-unique, asked-Routed,
}
use freelite.Cluster.{Cluster, Event, router_at, start, happen, history}
use freelite.Cluster.Delivery.{Delivers}
use freelite.Cluster.Ownership.{Owner}
use freelite.Cluster.Calls.{After, vcm_join-After, vcm_vid_nid-After}

module _ {W : Type 0} (net : Stream W VcmMsg VcmMsg) (nid : ℕ → ℤ) (vcm_of : W → Vcm)
    (d : Delivers net vcm_of) where
  step-After :
      (owners : List Owner) (c : Cluster W) (i : ℕ) (call : Call)
      → Inv nid vcm_of owners c
      → length owners < int_max
      → After nid net vcm_of d owners i (step net (nid i) (router_at c i) call)
  unfolding step
  step-After owners c i (joins cid) inv small =
      vcm_join-After nid net vcm_of d owners i (router_at c i) inv.manager (inv.truthful i) small
        cid
  step-After owners c i (asks v) inv small =
      vcm_vid_nid-After nid net vcm_of d owners i (router_at c i) inv.manager (inv.truthful i) small
        v

  happen-Next :
      (owners : List Owner) (c : Cluster W) (e : Event)
      → Inv nid vcm_of owners c
      → length owners < int_max
      → Next nid vcm_of owners (happen net nid c e)
  unfolding happen
  happen-Next owners c e inv small =
      After-Next nid vcm_of owners c e.router _ inv (step-After owners c e.router e.call inv small)

  module _ (w : W) (fds : ℕ → ℤ) (fresh : vcm_of w ≡ Vcm.init) (es : List Event)
      (short : length es < int_max) where
    kept :
        (owners : List Owner) × Inv nid vcm_of owners (history net nid (start w fds) es)
        × (length owners ≤ length es)
    unfolding history
    kept =
        runs-Inv nid vcm_of (happen net nid) happen-Next [] (start w fds) es
          (start-Inv nid vcm_of w fds fresh) (omega arith)

    -- The network carries the routers' messages to the manager or loses them (`Delivers`), and the
    -- manager starts empty. After any history of fewer than 2 ^ 31 - 1 calls by the routers, failed
    -- calls included, two containers never have the same vid, on one router or on two.
    pub vids_are_unique :
        (i j : ℕ) (c c' : Bytes) (v : ℤ)
        → let t = history net nid (start w fds) es in
          find Bytes_discrete c (t.routing i).cid_vid_map ≡ some v
          → find Bytes_discrete c' (t.routing j).cid_vid_map ≡ some v
          → (i ≡ j) × (c ≡ c')
    vids_are_unique i j c c' v h h' =
        let (owners, inv, few) = kept in
        Inv-unique nid vcm_of owners (history net nid (start w fds) es) i j c c' v inv h h'

    -- The network carries the routers' messages to the manager or loses them (`Delivers`), and the
    -- manager starts empty. After any history of fewer than 2 ^ 31 - 1 calls by the routers, a
    -- router that asks for the vid of a container is told the nid of the container's router, or -1,
    -- and never another node.
    pub vids_are_routed :
        (i j : ℕ) (c : Bytes) (v : ℤ)
        → let t = history net nid (start w fds) es in
          find Bytes_discrete c (t.routing i).cid_vid_map ≡ some v
          → let n = (vcm_vid_nid net v (router_at t j)).0 in (n ≡ minus_one) ⊎ (n ≡ nid i)
    vids_are_routed i j c v h =
        let (owners, inv, few) = kept in
        asked-Routed nid vcm_of net d owners (history net nid (start w fds) es) i j c v inv
          (omega arith) h
