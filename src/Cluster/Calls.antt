-- ===== src/Cluster/Calls.antt =====
-- What one call of `vcm_join` or `vcm_vid_nid` (router/lib/routing.cpp) does to the manager's registry
-- and to the maps of the router that makes it, on every path.
use freelite.Base.{
  ℕ, suc, ◌≤◌, ◌<◌, ℤ, pos, Bytes, is_neg, int_max, List, [], ◌∷◌, ◌++◌, true, false, ◌≡◌, inl, inr,
  refl, ap, ◌∙◌, arith, length, length-map,
}
use mathlib.Core.List.{map-append, append-nil}
use freelite.Os.{Stream}
use freelite.Vcm.{Vcm, VcmMsg, nid_vid}
use freelite.Vcm.Registry.{Refines, node_of, node_or_error}
use freelite.Routing.{Router, vcm_handler, vcm_join, vcm_vid_nid, remember_join, remember_nid}
use freelite.Routing.Branches.{join_request, nid_request, vcm_join-cases, vcm_vid_nid-cases}
use freelite.Routing.Connection.{vcm_handler-result}
use freelite.Cluster.Delivery.{Delivers, Exchanged, vcm_handler-Exchanged}
use freelite.Cluster.Ownership.{
  Owner, nids_of, Truthful, Truthful-append, Truthful-same, joined-Truthful, asked-Truthful,
}

module _ (nid : ℕ → ℤ) {W : Type 0} (net : Stream W VcmMsg VcmMsg) (vcm_of : W → Vcm)
    (d : Delivers net vcm_of) where
  -- After a call of router `i`: the registry has at most one entry more, and it and the router's
  -- maps agree.
  abbrev pub After : List Owner → ℕ → Router W → Type 0
  After owners i s =
      (more : List Owner) × Refines (vcm_of s.world) (nids_of nid (owners ++ more))
      × Truthful nid (owners ++ more) i s.routing
      × (length more ≤ 1)

  pub unchanged :
      (owners : List Owner) (i : ℕ) (s : Router W)
      → Refines (vcm_of s.world) (nids_of nid owners)
      → Truthful nid owners i s.routing
      → After owners i s
  unchanged owners i s r t = ([], rw (append-nil owners) r, rw (append-nil owners) t, omega arith)

  handler-Truthful :
      (owners : List Owner) (i : ℕ) (m : VcmMsg) (s : Router W)
      → Truthful nid owners i s.routing
      → Truthful nid owners i (vcm_handler net m s).1.routing
  handler-Truthful owners i m s t =
      let (_, e, f) = vcm_handler-result net m s in Truthful-same nid owners i s.routing _ e f t

  module _ (owners : List Owner) (i : ℕ) (cid : Bytes) where
    abbrev Joins : (ℤ × VcmMsg) × Router W → Type 0
    Joins =
        Exchanged net vcm_of d (nids_of nid owners)
          (record { func_code = nid_vid; id = pos (suc (length (nids_of nid owners))) })
          (nids_of nid owners ++ nid i ∷ [])

    registered :
        {v : Vcm}
        → Refines v (nids_of nid owners ++ nid i ∷ [])
        → Refines v (nids_of nid (owners ++ (i, cid) ∷ []))
    registered r = rw (map-append (λ o. nid o.0) owners ((i, cid) ∷ [])) r

    join_failed :
        (q : (ℤ × VcmMsg) × Router W)
        → Joins q
        → is_neg q.0.0 ≡ true
        → Truthful nid owners i q.1.routing
        → After owners i q.1
    join_failed q (inl (_, inl r)) f t = unchanged owners i q.1 r t
    join_failed q (inl (_, inr r)) f t =
        ((i, cid) ∷ [], registered r, Truthful-append nid owners (i, cid) i _ t, omega arith)
    join_failed q (inr (g, _, _)) f t = cc

    join_answered :
        (q : (ℤ × VcmMsg) × Router W)
        → Joins q
        → is_neg q.0.0 ≡ false
        → Truthful nid owners i q.1.routing
        → After owners i (remember_join net (nid i) cid q.0.1.id q.1)
    join_answered q (inl (g, _)) f t = cc
    join_answered q (inr (_, e, r)) f t = (
      (i, cid) ∷ [],
      registered r,
      rw (ap (λ m. m.id) e ∙ ap (λ k. pos (suc k)) (length-map (λ o. nid o.0) owners))
          (joined-Truthful nid owners i cid q.1.routing t),
      omega arith,
    )

  module _ (owners : List Owner) (i : ℕ) (v : ℤ) where
    abbrev Asks : (ℤ × VcmMsg) × Router W → Type 0
    Asks =
        Exchanged net vcm_of d (nids_of nid owners)
          (record (nid_request v) { id = node_or_error (node_of (nids_of nid owners) v) })
          (nids_of nid owners)

    ask_failed :
        (q : (ℤ × VcmMsg) × Router W)
        → Asks q
        → Truthful nid owners i q.1.routing
        → After owners i q.1
    ask_failed q (inl (_, inl r)) t = unchanged owners i q.1 r t
    ask_failed q (inl (_, inr r)) t = unchanged owners i q.1 r t
    ask_failed q (inr (_, _, r)) t = unchanged owners i q.1 r t

    ask_answered :
        (q : (ℤ × VcmMsg) × Router W)
        → Asks q
        → is_neg q.0.0 ≡ false
        → Truthful nid owners i q.1.routing
        → After owners i (remember_nid net v q.0.1.id q.1)
    ask_answered q (inl (g, _)) f t = cc
    ask_answered q (inr (_, e, r)) f t =
        unchanged owners i _ r (rw (ap (λ m. m.id) e) (asked-Truthful nid owners i v q.1.routing t))

  module _ (owners : List Owner) (i : ℕ) (s : Router W)
      (r : Refines (vcm_of s.world) (nids_of nid owners)) (t : Truthful nid owners i s.routing)
      (small : length owners < int_max) where
    few : length (nids_of nid owners) < int_max
    few = omega (arith, length-map (λ (o : Owner). nid o.0) owners)

    pub vcm_join-After : (cid : Bytes) → After owners i (vcm_join net (nid i) cid s).1
    vcm_join-After cid =
        vcm_join-cases net (λ q. After owners i q.1) (nid i) cid s (λ _ _. unchanged owners i s r t)
          (λ f _. join_failed owners i cid _ exchanged f (handler-Truthful owners i _ s t))
          λ f _. join_answered owners i cid _ exchanged f (handler-Truthful owners i _ s t)
      where
        exchanged : Joins owners i cid (vcm_handler net (join_request (nid i)) s)
        exchanged = vcm_handler-Exchanged net vcm_of d (join_request (nid i)) _ s _ _ r few refl

    pub vcm_vid_nid-After : (v : ℤ) → After owners i (vcm_vid_nid net v s).1
    vcm_vid_nid-After v =
        vcm_vid_nid-cases net (λ q. After owners i q.1) v s (λ _ _. unchanged owners i s r t)
          (λ _ _. ask_failed owners i v _ exchanged (handler-Truthful owners i _ s t))
          λ f _. ask_answered owners i v _ exchanged f (handler-Truthful owners i _ s t)
      where
        exchanged : Asks owners i v (vcm_handler net (nid_request v) s)
        exchanged = vcm_handler-Exchanged net vcm_of d (nid_request v) _ s _ _ r few refl
