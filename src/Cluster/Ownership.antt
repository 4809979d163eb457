-- ===== src/Cluster/Ownership.antt =====
-- Who has which vid: the registry of vcm/vcm.cpp, read as a list of the containers that it was
-- written for, against the maps of the routers (router/lib/routing.cpp).
use freelite.Base.{
  ℕ, suc, ℤ, pos, minus_one, ℤ_discrete, Bytes, Bytes_discrete, List, [], ◌∷◌, ◌++◌, map, some, ◌≡◌,
  ◌⊎◌, inl, inr, ap, ◌∙◌, arith, length,
}
use mathlib.Core.List.{map-append, append-nil, append_assoc}
use freelite.Base.UnorderedMap.{find, insert, find-insert_inv}
use freelite.Vcm.Registry.{
  node_of, node_or_error, node_of-append_next, node_of-append_old, node_of-map,
}
use freelite.Routing.{Routing}

-- A container: its router, and its id there.
abbrev pub Owner : Type 0
Owner = ℕ × Bytes

module _ (nid : ℕ → ℤ) where
  abbrev pub nids_of : List Owner → List ℤ
  nids_of = map (λ o. nid o.0)

  -- What router `i` believes is what the registry holds, or -1 for a vid that it did not hold yet.
  pub record Truthful (owners : List Owner) (i : ℕ) (r : Routing) : Type 0 where
    pub joined :
        (c : Bytes) (v : ℤ)
        → find Bytes_discrete c r.cid_vid_map ≡ some v
        → node_of owners v ≡ some (i, c)
    pub cached :
        (v n : ℤ)
        → find ℤ_discrete v r.vid_nid_map_cache ≡ some n
        → (n ≡ minus_one) ⊎ (node_of (nids_of owners) v ≡ some n)

  pub Truthful-append :
      (owners : List Owner) (o : Owner) (i : ℕ) (r : Routing)
      → Truthful owners i r
      → Truthful (owners ++ o ∷ []) i r
  Truthful-append owners o i r t = record {
    joined = λ c v h. node_of-append_old owners o v (t.joined c v h);
    cached = λ v n h. elim (t.cached v n h) [
      | inl e ↦ inl e
      | inr e ↦ inr (
          rw (map-append (λ o. nid o.0) owners (o ∷ []))
            (node_of-append_old (nids_of owners) (nid o.0) v e))
    ];
  }

  -- The router remembers a join that the registry has at its end.
  pub joined-Truthful :
      (owners : List Owner) (i : ℕ) (c : Bytes) (r : Routing)
      → Truthful owners i r
      → let v = pos (suc (length owners)) in
        Truthful (owners ++ (i, c) ∷ []) i (record r {
          cid_vid_map = insert Bytes_discrete c v r.cid_vid_map;
          vid_nid_map_cache = insert ℤ_discrete v (nid i) r.vid_nid_map_cache;
        })
  joined-Truthful owners i c r t = record {
    joined = λ d v h. elim (find-insert_inv Bytes_discrete c d _ v _ h) [
      | inl old ↦ kept.joined d v old
      | inr (same, e) ↦ rw (← e) (node_of-append_next owners (i, c)) ∙ ap (λ x. some (i, x)) same
    ];
    cached = λ v n h. elim (find-insert_inv ℤ_discrete _ v (nid i) n _ h) [
      | inl old ↦ kept.cached v n old
      | inr (e, f) ↦ inr (
          rw (← e, ← f)
            (node_of-map (λ o. nid o.0) (owners ++ (i, c) ∷ []) (pos (suc (length owners)))
              (node_of-append_next owners (i, c))))
    ];
  }
    where
      kept : Truthful (owners ++ (i, c) ∷ []) i r
      kept = Truthful-append owners (i, c) i r t

  pub asked-Truthful :
      (owners : List Owner) (i : ℕ) (v : ℤ) (r : Routing)
      → Truthful owners i r
      → Truthful owners i (record r {
        vid_nid_map_cache =
            insert ℤ_discrete v (node_or_error (node_of (nids_of owners) v)) r.vid_nid_map_cache;
      })
  asked-Truthful owners i v r t = record { joined = t.joined; cached = cached }
    where
      cached :
          (w n : ℤ)
          → find ℤ_discrete w
              (insert ℤ_discrete v (node_or_error (node_of (nids_of owners) v)) r.vid_nid_map_cache)
            ≡ some n
          → (n ≡ minus_one) ⊎ (node_of (nids_of owners) w ≡ some n)
      cached w n h = elim (find-insert_inv ℤ_discrete v w _ n _ h) [
        | inl old ↦ t.cached w n old
        | inr (e, f) ↦ ground (arith, ap (node_of (nids_of owners)) e)
      ]

  pub Truthful-appends :
      (owners more : List Owner) (i : ℕ) (r : Routing)
      → Truthful owners i r
      → Truthful (owners ++ more) i r
  Truthful-appends owners [] i r t = rw (append-nil owners) t
  Truthful-appends owners (o ∷ more) i r t =
      rw (append_assoc owners (o ∷ []) more) at
        (Truthful-appends (owners ++ o ∷ []) more i r (Truthful-append owners o i r t))

  pub Truthful-same :
      (owners : List Owner) (i : ℕ) (r r' : Routing)
      → r'.vid_nid_map_cache ≡ r.vid_nid_map_cache
      → r'.cid_vid_map ≡ r.cid_vid_map
      → Truthful owners i r
      → Truthful owners i r'
  Truthful-same owners i r r' e f t = record {
    joined = λ c v h. t.joined c v (rw f at h);
    cached = λ v n h. t.cached v n (rw e at h);
  }
