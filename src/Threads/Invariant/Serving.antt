-- ===== src/Threads/Invariant/Serving.antt =====
-- What an answer of the manager (vcm/vcm.cpp) does to what the routers and their threads rely on.
use freelite.Base.{
  ℕ, suc, ◌≤◌, ◌<◌, ℤ, pos, minus_one, int_max, List, [], ◌∷◌, ◌++◌, some, ◌≡◌, ◌⊎◌, inl, inr, refl,
  sym, ap, ◌∙◌, arith, length, length-map, Option-cases,
}
use mathlib.Core.List.{map-append, append-nil}
use freelite.Vcm.{Vcm, VcmMsg, handle}
use freelite.Vcm.Registry.{
  Refines, Agrees, answer, handle-Refines, node_of, node_or_error, node_of-appends,
  node_of-append_next,
}
use freelite.Cluster.Ownership.{Owner, nids_of, Truthful-appends}
use freelite.Threads.Worker.{
  Query, joins, asks, Call, query, reads, Wire, empty, request, response, Host, Pc, idle, blocked,
  looking, asking, awaiting, answered, returning, message,
}
use freelite.Threads.Invariant.{Answers, Results, IsQuiet, Carries, Fits, HostInv, IsSane}

module _ (nid : ℕ → ℤ) (owners more : List Owner) (i : ℕ) where
  known_then :
      (v n : ℤ)
      → node_of (nids_of nid owners) v ≡ some n
      → node_of (nids_of nid (owners ++ more)) v ≡ some n
  known_then v n h =
      rw (map-append (λ o. nid o.0) owners more)
        (node_of-appends (nids_of nid owners) (nids_of nid more) v h)

  Answers-appends :
      (q : Query) (id : ℤ) → Answers nid owners i q id → Answers nid (owners ++ more) i q id
  Answers-appends (joins cid) id a = node_of-appends owners more id a
  Answers-appends (asks vid) id (inl e) = inl e
  Answers-appends (asks vid) id (inr e) = inr (known_then vid id e)

  Results-appends :
      (c : Call) (n : ℤ) → Results nid owners i c n → Results nid (owners ++ more) i c n
  Results-appends (query (joins cid)) n (inl e) = inl e
  Results-appends (query (joins cid)) n (inr e) = inr (node_of-appends owners more n e)
  Results-appends (query (asks vid)) n (inl e) = inl e
  Results-appends (query (asks vid)) n (inr e) = inr (known_then vid n e)
  Results-appends (reads cid) n (inl e) = inl e
  Results-appends (reads cid) n (inr e) = inr (node_of-appends owners more n e)

  Carries-appends :
      (q : Query) (w : Wire) → Carries nid owners i q w → Carries nid (owners ++ more) i q w
  Carries-appends q (request m) c = c
  Carries-appends q (response m) c = Answers-appends q m.id c
  Carries-appends q empty c = c

  pub Fits-appends : (h : Host) (p : Pc) → Fits nid owners i h p → Fits nid (owners ++ more) i h p
  Fits-appends h (awaiting q) (open_, c) = (open_, Carries-appends q h.wire c)
  Fits-appends h (answered q id) (quiet, a) = (quiet, Answers-appends q id a)
  Fits-appends h (returning c n) (quiet, r) = (quiet, Results-appends c n r)
  Fits-appends h idle f = f
  Fits-appends h (blocked c) f = f
  Fits-appends h (looking c) f = f
  Fits-appends h (asking q) f = f

  IsSane-appends : (w : Wire) → IsSane nid owners i w → IsSane nid (owners ++ more) i w
  IsSane-appends (request m) c = c
  IsSane-appends (response m) c = tt
  IsSane-appends empty c = tt

  pub HostInv-appends : (h : Host) → HostInv nid owners i h → HostInv nid (owners ++ more) i h
  HostInv-appends h k = record {
    truthful = Truthful-appends nid owners more i h.routing k.truthful;
    sane = IsSane-appends h.wire k.sane;
    quiet = k.quiet;
  }

  -- The router whose request is answered, and its threads.
  module _ (h : Host) (m m' : VcmMsg) (q : Query) (sent : h.wire ≡ request m)
      (right : Answers nid (owners ++ more) i q m'.id) where
    no_longer-IsQuiet :
        IsQuiet nid owners i h → IsQuiet nid (owners ++ more) i (record h { wire = response m' })
    no_longer-IsQuiet quiet open_ = let e = quiet open_ in cc

    pub answered-HostInv :
        HostInv nid owners i h → HostInv nid (owners ++ more) i (record h { wire = response m' })
    answered-HostInv k = record {
      truthful = Truthful-appends nid owners more i h.routing k.truthful;
      sane = tt;
      quiet = λ free. no_longer-IsQuiet (k.quiet free);
    }

    pub answered-Fits :
        (p : Pc)
        → ((q' : Query) → p ≡ awaiting q' → q' ≡ q)
        → Fits nid owners i h p
        → Fits nid (owners ++ more) i (record h { wire = response m' }) p
    answered-Fits (awaiting q') same (open_, c) = (open_, rw (same q' refl) right)
    answered-Fits (answered q' id) same (quiet, a) =
        (no_longer-IsQuiet quiet, Answers-appends q' id a)
    answered-Fits (returning c n) same (quiet, r) = (no_longer-IsQuiet quiet, Results-appends c n r)
    answered-Fits idle same f = no_longer-IsQuiet f
    answered-Fits (blocked c) same f = no_longer-IsQuiet f
    answered-Fits (looking c) same f = no_longer-IsQuiet f
    answered-Fits (asking q') same f = no_longer-IsQuiet f

-- The manager's answer to a query is right, and it adds at most one entry to the registry.
module _ (nid : ℕ → ℤ) (owners : List Owner) (i : ℕ) (s v : Vcm) (m' : VcmMsg)
    (r : Refines s (nids_of nid owners)) (small : length owners < int_max) where
  abbrev pub Answered : Query → Type 0
  Answered q =
      (more : List Owner) × Refines v (nids_of nid (owners ++ more))
      × Answers nid (owners ++ more) i q m'.id
      × (length more ≤ 1)

  handle-Agrees :
      (q : Query)
      → handle (message (nid i) q) s ≡ some (m', v)
      → Agrees (some (m', v)) (answer (message (nid i) q) (nids_of nid owners))
  handle-Agrees q h = rw h at (
      handle-Refines (message (nid i) q) s (nids_of nid owners) r
        (omega (arith, length-map (λ (o : Owner). nid o.0) owners)))

  pub handle-Answered : (q : Query) → handle (message (nid i) q) s ≡ some (m', v) → Answered q
  handle-Answered (joins cid) h =
      let (e, r') = handle-Agrees (joins cid) h in
      let next = ap (λ m. m.id) e ∙ ap (λ k. pos (suc k)) (length-map (λ o. nid o.0) owners) in
      (
        (i, cid) ∷ [],
        rw (map-append (λ o. nid o.0) owners ((i, cid) ∷ [])) r',
        rw next (node_of-append_next owners (i, cid)),
        omega arith,
      )
  handle-Answered (asks vid) h =
      let (e, r') = handle-Agrees (asks vid) h in
      (
        [],
        rw (append-nil owners) r',
        rw (append-nil owners) (asked (ap (λ m. m.id) e)),
        omega arith,
      )
    where
      asked :
          m'.id ≡ node_or_error (node_of (nids_of nid owners) vid)
          → (m'.id ≡ minus_one) ⊎ (node_of (nids_of nid owners) vid ≡ some m'.id)
      asked e = elim (Option-cases (node_of (nids_of nid owners) vid)) [
        | inl f ↦ inl (e ∙ ap node_or_error f)
        | inr (n, f) ↦ inr (f ∙ ap some (sym (e ∙ ap node_or_error f)))
      ]
