-- ===== src/Threads/Invariant.antt =====
-- What holds of one router and one of its threads between any two steps, against the registry of
-- vcm/vcm.cpp.
pub mod Steps
pub mod Serving
pub mod Whole
pub mod Answering
pub mod Reachable
use freelite.Base.{
  ℕ, ℤ, minus_one, ℤ_discrete, Bytes_discrete, true, List, none, some, ◌≡◌, ◌≢◌, ◌⊎◌, inl, inr,
  refl, ap, ◌∙◌,
}
use freelite.Base.UnorderedMap.{find, insert, find-insert_inv}
use freelite.Routing.{Routing}
use freelite.Vcm.Registry.{node_of, node_of-map}
use freelite.Cluster.Ownership.{Owner, nids_of, Truthful}
use freelite.Threads.Worker.{
  Query, joins, asks, Call, query, reads, Wire, empty, request, response, Host, Pc, awaiting,
  answered, returning, critical, known, message, remember,
}

module _ (nid : ℕ → ℤ) (owners : List Owner) (i : ℕ) where
  -- A right answer of the manager, and a right result of a call.
  abbrev pub Answers : Query → ℤ → Type 0
  Answers (joins cid) id = node_of owners id ≡ some (i, cid)
  Answers (asks vid) id = (id ≡ minus_one) ⊎ (node_of (nids_of nid owners) vid ≡ some id)

  abbrev pub Results : Call → ℤ → Type 0
  Results (query (joins cid)) n = (n ≡ minus_one) ⊎ (node_of owners n ≡ some (i, cid))
  Results (query (asks vid)) n = (n ≡ minus_one) ⊎ (node_of (nids_of nid owners) vid ≡ some n)
  Results (reads cid) n = (n ≡ minus_one) ⊎ (node_of owners n ≡ some (i, cid))

  abbrev pub IsConnected : Host → Type 0
  IsConnected h = h.routing.client_sock ≢ minus_one

  -- Nothing is on the connection, unless it is lost.
  abbrev pub IsQuiet : Host → Type 0
  IsQuiet h = IsConnected h → h.wire ≡ empty

  abbrev pub Carries : Query → Wire → Type 0
  Carries q empty = ⊥
  Carries q (request m) = m ≡ message (nid i) q
  Carries q (response m) = Answers q m.id

  -- What a thread in the critical section relies on.
  abbrev pub Fits : Host → Pc → Type 0
  Fits h (awaiting q) = IsConnected h × Carries q h.wire
  Fits h (answered q id) = IsQuiet h × Answers q id
  Fits h (returning c n) = IsQuiet h × Results c n
  Fits h _ = IsQuiet h

  abbrev pub IsSane : Wire → Type 0
  IsSane (request m) = (q : Query) × (m ≡ message (nid i) q)
  IsSane _ = Unit

  pub record HostInv (h : Host) : Type 0 where
    pub truthful : Truthful nid owners i h.routing
    pub sane : IsSane h.wire
    pub quiet : h.holder ≡ none → IsQuiet h

  abbrev pub ThreadInv : ℕ → Host → Pc → Type 0
  ThreadInv t h p = critical p ≡ true → (h.holder ≡ some t) × Fits h p

  pub known-Results :
      (c : Call) (n : ℤ) (r : Routing) → Truthful nid owners i r → known c r ≡ some n → Results c n
  known-Results (query (joins cid)) n r t h = inr (t.joined cid n h)
  known-Results (query (asks vid)) n r t h = t.cached vid n h
  known-Results (reads cid) n r t h = inr (t.joined cid n h)

  pub Answers-Results : (q : Query) (n : ℤ) → Answers q n → Results (query q) n
  Answers-Results (joins cid) n a = inr a
  Answers-Results (asks vid) n a = a

  pub unknown-Results : (c : Call) → Results c minus_one
  unknown-Results (query (joins cid)) = inl refl
  unknown-Results (query (asks vid)) = inl refl
  unknown-Results (reads cid) = inl refl

  -- A right answer may be remembered.
  pub remember-Truthful :
      (q : Query) (id : ℤ) (r : Routing)
      → Truthful nid owners i r
      → Answers q id
      → Truthful nid owners i (remember (nid i) q id r)
  remember-Truthful (joins cid) id r t a = record {
    joined = λ d v h. elim (find-insert_inv Bytes_discrete cid d id v r.cid_vid_map h) [
      | inl old ↦ t.joined d v old
      | inr (same, e) ↦ rw (← e) a ∙ ap (λ x. some (i, x)) same
    ];
    cached = λ v n h. elim (find-insert_inv ℤ_discrete id v (nid i) n r.vid_nid_map_cache h) [
      | inl old ↦ t.cached v n old
      | inr (e, f) ↦ inr (rw (← e, ← f) (node_of-map (λ o. nid o.0) owners id a))
    ];
  }
  remember-Truthful (asks vid) id r t a = record {
    joined = t.joined;
    cached = λ v n h. elim (find-insert_inv ℤ_discrete vid v id n r.vid_nid_map_cache h) [
      | inl old ↦ t.cached v n old
      | inr (e, f) ↦ rw (← e, ← f) a
    ];
  }
