-- ===== src/Threads/Safety.antt =====
-- What the lock `map_mutex` of router/lib/routing.cpp and `vcm_mutex` of vcm/vcm.cpp give, whatever
-- the order in which threads, routers and the manager act.
use freelite.Base.{
  ℕ, ◌<◌, ℤ, minus_one, int_max, Bytes, Bytes_discrete, true, List, some, ◌≡◌, ◌≢◌, ◌⊎◌, inl, inr,
  refl, sym, ap, ◌∙◌, some_injective,
}
use mathlib.Core.Path.{subst}
use freelite.Base.UnorderedMap.{find}
use freelite.Vcm.Registry.{node_of, node_of-map}
use freelite.Cluster.Ownership.{Owner}
use freelite.Threads.Worker.{joins, asks, Call, query, returning, critical}
use freelite.Threads.System.{System, Reach}
use freelite.Threads.Invariant.{ThreadInv, Results}
use freelite.Threads.Invariant.Whole.{Inv}
use freelite.Threads.Invariant.Reachable.{Reach-Inv}

module _ (nid : ℕ → ℤ) (host_of : ℕ → ℕ) where
  -- Router `i` gave container `cid` the vid: it remembers so, or a thread of it is returning it.
  pub data IsGiven (s : System) (i : ℕ) (cid : Bytes) (vid : ℤ) : Type 0 where
    remembered :
        find Bytes_discrete cid (s.host i).routing.cid_vid_map ≡ some vid → IsGiven s i cid vid
    returned :
        (t : ℕ)
        → host_of t ≡ i
        → s.pc t ≡ returning (query (joins cid)) vid
        → vid ≢ minus_one
        → IsGiven s i cid vid

  result :
      (owners : List Owner) (s : System) (t i : ℕ) (n : ℤ) (c : Call)
      → Inv nid host_of owners s
      → host_of t ≡ i
      → s.pc t ≡ returning c n
      → Results nid owners i c n
  result owners s t i n c inv e at_ =
      (subst (λ p. ThreadInv nid owners i t (s.host i) p) at_
        (subst (λ j. ThreadInv nid owners j t (s.host j) (s.pc t)) e (inv.threads t)) refl).1.1

  IsGiven-node :
      (owners : List Owner) (s : System) {i : ℕ} {cid : Bytes} {vid : ℤ}
      → Inv nid host_of owners s
      → IsGiven s i cid vid
      → node_of owners vid ≡ some (i, cid)
  IsGiven-node owners s {i} {cid} {vid} inv (remembered h) = (inv.hosts i).truthful.joined cid vid h
  IsGiven-node owners s {i} {cid} {vid} inv (returned t e at_ good) =
      elim (result owners s t i vid (query (joins cid)) inv e at_) [
        | inl bad ↦ absurd (good bad)
        | inr found ↦ found
      ]

  module _ (fds : ℕ → ℤ) {k : ℕ} {s : System} (r : Reach nid host_of fds k s)
      (small : k < int_max) where
    -- Threads of any routers make calls of `vcm_join`, `vcm_vid_nid` and `vcm_get_node_id`, one access
    -- at a time and in any order, calls of the operating system may fail, and the manager has given
    -- fewer than 2 ^ 31 - 1 answers. Two threads of one router are never both between the
    -- `lock_guard` and the return.
    pub mutual_exclusion :
        (t u : ℕ)
        → host_of t ≡ host_of u
        → critical (s.pc t) ≡ true
        → critical (s.pc u) ≡ true
        → t ≡ u
    mutual_exclusion t u e in_t in_u =
        let (owners, (inv, few)) = Reach-Inv nid host_of fds r small in
        some_injective
          (sym (inv.threads t in_t).0 ∙ ap (λ i. (s.host i).holder) e ∙ (inv.threads u in_u).0)

    -- Threads interleave and fail as in `mutual_exclusion`. Two containers, on one router or on two,
    -- are never given the same vid, whether the router remembers it or a thread is about to return
    -- it.
    pub given_once :
        {i j : ℕ} {c c' : Bytes} {v : ℤ} → IsGiven s i c v → IsGiven s j c' v → (i ≡ j) × (c ≡ c')
    given_once g g' =
        let (owners, (inv, few)) = Reach-Inv nid host_of fds r small in
        let e = some_injective (sym (IsGiven-node owners s inv g) ∙ IsGiven-node owners s inv g') in
        (ap (λ o. o.0) e, ap (λ o. o.1) e)

    -- Threads interleave and fail as in `mutual_exclusion`. When a container has been given a vid, a
    -- thread of any router that returns from `vcm_vid_nid` with that vid returns the nid of the
    -- container's router, or -1.
    pub told_right :
        {i : ℕ} {c : Bytes} {v : ℤ} (t : ℕ) (n : ℤ)
        → IsGiven s i c v
        → s.pc t ≡ returning (query (asks v)) n
        → (n ≡ minus_one) ⊎ (n ≡ nid i)
    told_right {i} {c} {v} t n g at_ =
        let (owners, (inv, few)) = Reach-Inv nid host_of fds r small in
        elim (result owners s t (host_of t) n (query (asks v)) inv refl at_) [
          | inl unknown ↦ inl unknown
          | inr found ↦ inr (
              some_injective
                (sym found ∙ node_of-map (λ o. nid o.0) owners v (IsGiven-node owners s inv g)))
        ]
