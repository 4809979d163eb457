-- ===== src/Vcm/Registry.antt =====
-- The contract of the virtual cluster manager: it is a registry, a list of nids that only grows,
-- and a vid is a position in it, counted from 1.
use freelite.Base.{
  ℕ, zero, suc, ◌<◌, ℤ, pos, negsuc, minus_one, int_max, incr, ℤ_discrete, eq_ℤ, List, [], ◌∷◌,
  ◌++◌, map, get_elem?-map, Option, none, some, ◌≡◌, ◌≢◌, refl, sym, ap, ◌∙◌, arith, length,
  get_elem?, length-append, get_elem?-append_last, get_elem?-append_left, get_elem?-eq-none,
  if◌then◌else◌, dec_lt,
}
use mathlib.Core.List.{append-nil, append_assoc}
use freelite.Base.UnorderedMap.{find, find-insert_self, find-insert_ne}
use freelite.Vcm.{Vcm, VcmMsg, init, vid_nid, nid_vid, get_new_vid, get_nid_by_vid, handle}

-- The entry of a vid. A registry may hold more than nids: who has registered, say.
abbrev pub node_of {ℓ} : {A : Type ℓ} → List A → ℤ → Option A
node_of entries (pos zero) = none
node_of entries (pos (suc i)) = get_elem? entries i
node_of entries (negsuc n) = none

abbrev pub node_or_error : Option ℤ → ℤ
node_or_error none = minus_one
node_or_error (some nid) = nid

-- The manager's state stands for the registry `nids`.
pub record Refines (s : Vcm) (nids : List ℤ) : Type 0 where
  pub counted : s.vid ≡ pos (length nids)
  pub mapped : (v : ℤ) → find ℤ_discrete v s.vid_nid_map ≡ node_of nids v

node_of-nil : (v : ℤ) → none ≡ node_of {A = ℤ} [] v
node_of-nil (pos zero) = refl
node_of-nil (pos (suc i)) = refl
node_of-nil (negsuc n) = refl

pub init-Refines : Refines init []
unfolding find
init-Refines = record { counted = refl; mapped = node_of-nil }

incr_below : (n : ℕ) → n < int_max → incr (pos n) ≡ pos (suc n)
unfolding incr
incr_below n h = ground arith

module _ {ℓ} {A : Type ℓ} where
  -- One registration more leaves the vids alone that it does not hand out.
  node_of-append_other :
      (es : List A) (e : A) (v : ℤ)
      → pos (suc (length es)) ≢ v
      → node_of (es ++ e ∷ []) v ≡ node_of es v
  node_of-append_other es e (pos zero) h = refl
  node_of-append_other es e (pos (suc i)) h = elim (dec_lt i (length es)) [
    | yes p ↦ get_elem?-append_left es (e ∷ []) i p
    | no p ↦
        get_elem?-eq-none (es ++ e ∷ []) i (ground (arith, length-append es (e ∷ [])))
        ∙ sym (get_elem?-eq-none es i (omega arith))
  ]
  node_of-append_other es e (negsuc n) h = refl

  -- A vid that is not handed out yet is unknown.
  pub node_of_next : (es : List A) → node_of es (pos (suc (length es))) ≡ none
  node_of_next es = get_elem?-eq-none es (length es) (omega arith)

  pub node_of-append_next :
      (es : List A) (e : A) → node_of (es ++ e ∷ []) (pos (suc (length es))) ≡ some e
  node_of-append_next es e = get_elem?-append_last es e

  -- What is registered stays registered.
  pub node_of-append_old :
      (es : List A) (e : A) (v : ℤ) {a : A}
      → node_of es v ≡ some a
      → node_of (es ++ e ∷ []) v ≡ some a
  node_of-append_old es e v h =
      node_of-append_other es e v (λ q. ground (arith, ap (node_of es) q, node_of_next es)) ∙ h

  pub node_of-appends :
      (es more : List A) (v : ℤ) {a : A} → node_of es v ≡ some a → node_of (es ++ more) v ≡ some a
  node_of-appends es [] v h = rw (append-nil es) h
  node_of-appends es (e ∷ more) v h =
      rw (append_assoc es (e ∷ []) more) at
        (node_of-appends (es ++ e ∷ []) more v (node_of-append_old es e v h))

  pub node_of-map {κ} :
      {B : Type κ} (f : A → B) (es : List A) (v : ℤ) {a : A}
      → node_of es v ≡ some a
      → node_of (map f es) v ≡ some (f a)
  node_of-map f es (pos (suc i)) h = get_elem?-map f es i h
  node_of-map f es (pos zero) h = cc
  node_of-map f es (negsuc n) h = cc

-- When the state stands for a registry of fewer than 2 ^ 31 - 1 nids, a registration adds its nid at the end of the registry, and answers with
-- the position of that entry.
pub get_new_vid-Refines :
    (s : Vcm) (nids : List ℤ) (nid : ℤ)
    → Refines s nids
    → length nids < int_max
    → Refines (get_new_vid nid s).1 (nids ++ nid ∷ [])
      × ((get_new_vid nid s).0 ≡ pos (suc (length nids)))
unfolding get_new_vid
get_new_vid-Refines s nids nid r h = (
  record {
    counted = next ∙ ap pos (omega (arith, length-append nids (nid ∷ [])));
    mapped = λ v. elim (ℤ_discrete (incr s.vid) v) [
      | yes e ↦ rw (← e) (
          find-insert_self ℤ_discrete (incr s.vid) nid s.vid_nid_map unused
          ∙ sym (ap (node_of (nids ++ nid ∷ [])) next ∙ node_of-append_next nids nid))
      | no e ↦
          find-insert_ne ℤ_discrete (incr s.vid) v nid s.vid_nid_map e
          ∙ r.mapped v
          ∙ sym (node_of-append_other nids nid v (λ q. e (next ∙ q)))
    ];
  },
  next,
)
  where
    next : incr s.vid ≡ pos (suc (length nids))
    next = ap incr r.counted ∙ incr_below (length nids) h

    unused : find ℤ_discrete (incr s.vid) s.vid_nid_map ≡ none
    unused = r.mapped (incr s.vid) ∙ ap (node_of nids) next ∙ node_of_next nids

-- A query answers what the registry holds, and -1 for a vid that was never handed out.
pub get_nid_by_vid-Refines :
    (s : Vcm) (nids : List ℤ) (v : ℤ)
    → Refines s nids
    → get_nid_by_vid v s ≡ node_or_error (node_of nids v)
unfolding get_nid_by_vid
get_nid_by_vid-Refines s nids v r = ground (arith, r.mapped v)

-- The contract: the message that goes back and the registry then, or `none` for a function code
-- that the manager does not know.
abbrev pub answer : VcmMsg → List ℤ → Option (VcmMsg × List ℤ)
answer msg nids =
    if eq_ℤ msg.func_code vid_nid
    then some (record msg { id = node_or_error (node_of nids msg.id) }, nids)
    else (if eq_ℤ msg.func_code nid_vid
        then some (record msg { id = pos (suc (length nids)) }, nids ++ msg.id ∷ [])
        else none)

-- Both refuse, or both send the same message and the new state stands for the new registry.
abbrev pub Agrees : Option (VcmMsg × Vcm) → Option (VcmMsg × List ℤ) → Type 0
Agrees none none = Unit
Agrees (some (m, s)) (some (m', nids)) = (m ≡ m') × Refines s nids
Agrees _ _ = ⊥

-- When the state stands for a registry of fewer than 2 ^ 31 - 1 nids, the `switch` agrees with the
-- contract on every function code: it refuses the same messages, and otherwise sends the same answer
-- and leaves a state that stands for the contract's registry.
pub handle-Refines :
    (msg : VcmMsg) (s : Vcm) (nids : List ℤ)
    → Refines s nids
    → length nids < int_max
    → Agrees (handle msg s) (answer msg nids)
unfolding handle
handle-Refines msg s nids r h =
    ground (arith, r, get_new_vid-Refines s nids msg.id r h, get_nid_by_vid-Refines s nids msg.id r)
