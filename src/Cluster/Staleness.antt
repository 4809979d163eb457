-- ===== src/Cluster/Staleness.antt =====
-- A router that asks too early (router/lib/routing.cpp, `vcm_vid_nid`): the manager's -1 is kept in
-- the cache like any other answer.
use freelite.Base.{
  ◌<◌, ℤ, minus_one, ℤ_discrete, is_neg, int_max, List, none, false, ◌≡◌, inl, inr, refl, ap, ◌∙◌,
  length,
}
use freelite.Base.UnorderedMap.{find}
use freelite.Os.{Stream}
use freelite.Vcm.{Vcm, VcmMsg}
use freelite.Vcm.Registry.{Refines, node_of, node_or_error}
use freelite.Routing.{Router, vcm_handler, vcm_vid_nid}
use freelite.Routing.Branches.{nid_request, vcm_vid_nid-cases}
use freelite.Routing.Caching.{Call, run, vcm_vid_nid_again}
use freelite.Cluster.Delivery.{Delivers, Exchanged, vcm_handler-Exchanged}

module _ {W : Type 0} (net : Stream W VcmMsg VcmMsg) (vcm_of : W → Vcm)
    (d : Delivers net vcm_of) where
  -- When the network delivers, the manager holds a registry of fewer than 2 ^ 31 - 1 nids, the vid
  -- is not in the cache and the exchange of messages succeeds, then the router's answer about the
  -- vid is the registry's nid, or -1 if the registry has none.
  pub vcm_vid_nid-answer :
      (v : ℤ) (s : Router W) (nids : List ℤ)
      → Refines (vcm_of s.world) nids
      → length nids < int_max
      → find ℤ_discrete v s.vid_nid_map_cache ≡ none
      → is_neg (vcm_handler net (nid_request v) s).0.0 ≡ false
      → (vcm_vid_nid net v s).0 ≡ node_or_error (node_of nids v)
  vcm_vid_nid-answer v s nids r small new ok =
      vcm_vid_nid-cases net (λ q. q.0 ≡ node_or_error (node_of nids v)) v s (λ m h. cc)
        (λ failed _. cc)
        λ _ _.
          answer_id (vcm_handler net (nid_request v) s)
            (vcm_handler-Exchanged net vcm_of d (nid_request v) _ s nids nids r small refl) ok
    where
      answer_id :
          (q : (ℤ × VcmMsg) × Router W)
          → Exchanged net vcm_of d nids
              (record (nid_request v) { id = node_or_error (node_of nids v) })
              nids
              q
          → is_neg q.0.0 ≡ false
          → q.0.1.id ≡ node_or_error (node_of nids v)
      answer_id q (inl (f, _)) g = cc
      answer_id q (inr (_, e, _)) g = ap (λ m. m.id) e

  -- When the network delivers, the manager holds a registry of fewer than 2 ^ 31 - 1 nids and none
  -- for the vid, the vid is not in the cache and the exchange of messages succeeds, then a router
  -- that asks for the vid answers -1 for it from then on, through all its later calls and whatever
  -- the world is then, so also when the manager has handed the vid out.
  pub unknown_for_ever :
      (n v : ℤ) (s : Router W) (nids : List ℤ) (w : W) (cs : List Call)
      → Refines (vcm_of s.world) nids
      → length nids < int_max
      → node_of nids v ≡ none
      → find ℤ_discrete v s.vid_nid_map_cache ≡ none
      → is_neg (vcm_handler net (nid_request v) s).0.0 ≡ false
      → let t = run net n (record (vcm_vid_nid net v s).1 { world = w }) cs in
        vcm_vid_nid net v t ≡ (minus_one, t)
  unknown_for_ever n v s nids w cs r small unknown new ok =
      vcm_vid_nid_again net n v s w cs ok
      ∙ ap (λ m. (m, run net n (record (vcm_vid_nid net v s).1 { world = w }) cs))
          (vcm_vid_nid-answer v s nids r small new ok ∙ ap node_or_error unknown)
