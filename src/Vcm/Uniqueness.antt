-- ===== src/Vcm/Uniqueness.antt =====
-- What the state of vcm/vcm.cpp remembers: every registration, in their order.
use freelite.Base.{
  none, some, length, length-append, negsuc, ◌+◌, ◌<◌, ◌++◌, int_max, eq_ℤ, if◌then◌else◌, ap,
  arith, true, false, inl, inr, Bool-cases, ℕ, suc, ℤ, pos, ℤ_discrete, List, [], ◌∷◌, ◌≡◌, refl,
  sym, ◌∙◌, get_elem?, some_injective,
}
use mathlib.Core.Path.{ap₂, subst}
use mathlib.Core.List.{append-nil, append_assoc}
use mathlib.Core.HLevel.{Σ_prop_path}
use freelite.Vcm.{Vcm, VcmMsg, init, vid_nid, nid_vid, handle, get_new_vid}
use freelite.Vcm.Registry.{Refines, init-Refines, get_new_vid-Refines}

-- Lists with the same entries are the same.
get_elem?-ext {ℓ} :
    {A : Type ℓ} (xs ys : List A) → ((i : ℕ) → get_elem? xs i ≡ get_elem? ys i) → xs ≡ ys
get_elem?-ext [] [] h = refl
get_elem?-ext [] (y ∷ ys) h = let e = h 0 in cc
get_elem?-ext (x ∷ xs) [] h = let e = h 0 in cc
get_elem?-ext (x ∷ xs) (y ∷ ys) h =
    ap₂ ◌∷◌ (some_injective (h 0)) (get_elem?-ext xs ys (λ i. h (suc i)))

Refines-prop : (s : Vcm) (nids : List ℤ) → IsProp (Refines s nids)
Refines-prop s nids = hlevel (ℤ_discrete)

-- A state of the manager stands for at most one registry, and in one way only.
pub registry-prop : (s : Vcm) → IsProp ((nids : List ℤ) × Refines s nids)
registry-prop s (xs, r) (ys, q) =
    Σ_prop_path (Refines-prop s)
      (get_elem?-ext xs ys (λ i. sym (r.mapped (pos (suc i))) ∙ q.mapped (pos (suc i))))

-- What a list of messages leaves of the manager; a message that it refuses changes nothing.
unfoldable pub leaves : List VcmMsg → Vcm → Vcm
leaves [] s = s
leaves (msg ∷ msgs) s = elim (handle msg s) [ none ↦ leaves msgs s | some (m, s') ↦ leaves msgs s' ]

-- The nids that the messages register.
unfoldable pub registered : List VcmMsg → List ℤ
registered [] = []
registered (msg ∷ msgs) =
    let rest = registered msgs in if eq_ℤ msg.func_code nid_vid then msg.id ∷ rest else rest

codes_differ : (code : ℤ) → eq_ℤ code vid_nid ≡ true → eq_ℤ code nid_vid ≡ false
codes_differ (pos n) e = ground arith
codes_differ (negsuc n) e = cc

leaves-Refines :
    (msgs : List VcmMsg) (s : Vcm) (nids : List ℤ)
    → Refines s nids
    → length nids + length msgs < int_max
    → Refines (leaves msgs s) (nids ++ registered msgs)
unfolding leaves registered handle
leaves-Refines [] s nids r h = rw (append-nil nids) r
leaves-Refines (msg ∷ msgs) s nids r h = elim (Bool-cases (eq_ℤ msg.func_code vid_nid)) [
  | inl asks ↦
      rw (asks, leaves, codes_differ msg.func_code asks, registered)
        (leaves-Refines msgs s nids r (omega arith))
  | inr other ↦ elim (Bool-cases (eq_ℤ msg.func_code nid_vid)) [
    | inl registers ↦
        let (next, _) = get_new_vid-Refines s nids msg.id r (omega arith) in
        rw (other, leaves, registers, registered)
          (rw (append_assoc nids (msg.id ∷ []) (registered msgs)) at (
            leaves-Refines msgs (get_new_vid msg.id s).1 (nids ++ msg.id ∷ []) next
              (omega (arith, length-append nids (msg.id ∷ [])))))
    | inr unknown ↦
        rw (other, leaves, unknown, registered) (leaves-Refines msgs s nids r (omega arith))
  ]
]

-- Two lists of fewer than 2 ^ 31 - 1 messages each, served by a manager that starts: if they leave it
-- in the same state, they have registered the same nids in the same order.
pub registrations_are_remembered :
    (msgs msgs' : List VcmMsg)
    → length msgs < int_max
    → length msgs' < int_max
    → leaves msgs init ≡ leaves msgs' init
    → registered msgs ≡ registered msgs'
registrations_are_remembered msgs msgs' few few' same =
    let r = leaves-Refines msgs init [] init-Refines (omega arith) in
    let r' = leaves-Refines msgs' init [] init-Refines (omega arith) in
    ap (λ x. x.0)
      (registry-prop (leaves msgs' init)
        (registered msgs, subst (λ s. Refines s (registered msgs)) same r) (registered msgs', r'))
