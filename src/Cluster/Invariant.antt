-- ===== src/Cluster/Invariant.antt =====
-- What holds between the manager and the maps of all routers (vcm/vcm.cpp and router/lib/routing.cpp),
-- whatever the routers do.
use freelite.Base.{
  ℕ, ◌+◌, ◌≤◌, ◌<◌, ℤ, minus_one, Bytes, Bytes_discrete, int_max, List, [], ◌∷◌, ◌++◌, some, ◌≡◌,
  ◌⊎◌, inl, inr, sym, ◌∙◌, arith, length, length-append, some_injective,
}
use mathlib.Core.List.{append-nil, append_assoc}
use freelite.Base.UnorderedMap.{find}
use freelite.Os.{Stream}
use freelite.Vcm
use freelite.Vcm.{Vcm, VcmMsg}
use freelite.Vcm.Registry.{Refines, init-Refines, node_of-map, node_of-appends}
use freelite.Routing.{Router, vcm_vid_nid}
use freelite.Routing.Caching.{vcm_vid_nid-found}
use freelite.Cluster.{Cluster, update, update-all, router_at, start, runs}
use freelite.Cluster.Delivery.{Delivers}
use freelite.Cluster.Ownership.{Owner, nids_of, Truthful, Truthful-appends}
use freelite.Cluster.Calls.{vcm_vid_nid-After}

module _ (nid : ℕ → ℤ) {W : Type 0} (vcm_of : W → Vcm) where
  -- The manager stands for the registry of `owners`, and all routers agree with it.
  pub record Inv (owners : List Owner) (c : Cluster W) : Type 0 where
    pub manager : Refines (vcm_of c.world) (nids_of nid owners)
    pub truthful : (i : ℕ) → Truthful nid owners i (c.routing i)

  pub start-Inv : (w : W) (fds : ℕ → ℤ) → vcm_of w ≡ Vcm.init → Inv [] (start w fds)
  unfolding find
  start-Inv w fds h = record {
    manager = rw h init-Refines;
    truthful = λ i. record { joined = λ c v e. cc; cached = λ v n e. cc };
  }

  -- One router has acted, and the registry has at most one entry more.
  abbrev pub Next : List Owner → Cluster W → Type 0
  Next owners c = (more : List Owner) × Inv (owners ++ more) c × (length more ≤ 1)

  pub After-Next :
      (owners : List Owner) (c : Cluster W) (i : ℕ) (s : Router W)
      → Inv owners c
      → (more : List Owner) × Refines (vcm_of s.world) (nids_of nid (owners ++ more))
        × Truthful nid (owners ++ more) i s.routing
        × (length more ≤ 1)
      → Next owners (record { world = s.world; routing = update c.routing i s.routing })
  After-Next owners c i s inv (more, r, t, few) = (
    more,
    record {
      manager = r;
      truthful =
          update-all (λ j x. Truthful nid (owners ++ more) j x) c.routing i _ t
            (λ j. Truthful-appends nid owners more j (c.routing j) (inv.truthful j));
    },
    few,
  )

  -- What every act keeps, every history keeps, if the vids suffice for it.
  pub runs-Inv :
      {E : Type 0} (act : Cluster W → E → Cluster W)
      → ((owners : List Owner) (c : Cluster W) (e : E)
          → Inv owners c
          → length owners < int_max
          → Next owners (act c e))
      → (owners : List Owner) (c : Cluster W) (es : List E) → Inv owners c
      → length owners + length es ≤ int_max
      → (more : List Owner) × Inv (owners ++ more) (runs act c es) × (length more ≤ length es)
  unfolding runs
  runs-Inv act keep owners c [] inv small = ([], rw (append-nil owners) inv, omega arith)
  runs-Inv act keep owners c (e ∷ es) inv small =
      let (new, inv', few) = keep owners c e inv (omega arith) in
      let (more, inv'', few') =
        runs-Inv act keep (owners ++ new) (act c e) es inv'
          (omega (arith, length-append owners new)) in
      (
        new ++ more,
        rw (append_assoc owners new more) at inv'',
        omega (arith, length-append new more),
      )

  -- A vid has one owner.
  pub Inv-unique :
      (owners : List Owner) (t : Cluster W) (i j : ℕ) (c c' : Bytes) (v : ℤ)
      → Inv owners t
      → find Bytes_discrete c (t.routing i).cid_vid_map ≡ some v
      → find Bytes_discrete c' (t.routing j).cid_vid_map ≡ some v
      → (i ≡ j) × (c ≡ c')
  Inv-unique owners t i j c c' v inv h h' =
      let e = sym ((inv.truthful i).joined c v h) ∙ (inv.truthful j).joined c' v h' in (cc, cc)

  -- A router that asks for a vid with an owner.
  pub asked-Routed :
      (net : Stream W VcmMsg VcmMsg) (d : Delivers net vcm_of) (owners : List Owner) (t : Cluster W)
      (i j : ℕ) (c : Bytes) (v : ℤ)
      → Inv owners t
      → length owners < int_max
      → find Bytes_discrete c (t.routing i).cid_vid_map ≡ some v
      → let n = (vcm_vid_nid net v (router_at t j)).0 in (n ≡ minus_one) ⊎ (n ≡ nid i)
  asked-Routed net d owners t i j c v inv small h = elim (vcm_vid_nid-found net v (router_at t j)) [
    | inr failed ↦ inl failed
    | inl found ↦
        let owned = (inv.truthful i).joined c v h in
        let (more, _, true_then, _) =
          vcm_vid_nid-After nid net vcm_of d owners j (router_at t j) inv.manager (inv.truthful j)
            small v in
        elim (true_then.cached v _ found) [
          | inl unknown ↦ inl unknown
          | inr known ↦ inr (
              some_injective (
                sym known
                ∙ node_of-map (λ o. nid o.0) (owners ++ more) v
                    (node_of-appends owners more v owned)))
        ]
  ]
