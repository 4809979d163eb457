-- ===== src/Base/Text.antt =====
-- Texts of the program: the bytes of a C string, up to its NUL, or of a `std::string`.
use Prim.Native.Nat.{ℕ}
use mathlib.Core.Path.{refl, ap₂}
use mathlib.Core.Logic.{◌≢◌}
use mathlib.Core.List.{List, [], ◌∷◌}
unfoldable pub use native.Mathlib.Decide.{ℕ_discrete}

abbrev pub Bytes : Type 0
Bytes = List ℕ

pub nil-ne-cons : {b : ℕ} {s : Bytes} → [] ≢ b ∷ s
nil-ne-cons e = cc

pub cons-ne-nil : {b : ℕ} {s : Bytes} → b ∷ s ≢ []
cons-ne-nil e = cc

pub head-ne : {a b : ℕ} {s t : Bytes} → a ≢ b → a ∷ s ≢ b ∷ t
head-ne h e = h (cc)

pub tail-ne : {a b : ℕ} {s t : Bytes} → s ≢ t → a ∷ s ≢ b ∷ t
tail-ne h e = h (cc)

unfoldable pub Bytes_discrete : Discrete Bytes
unfolding ℕ_discrete
Bytes_discrete [] [] = yes refl
Bytes_discrete [] (b ∷ t) = no nil-ne-cons
Bytes_discrete (a ∷ s) [] = no cons-ne-nil
Bytes_discrete (a ∷ s) (b ∷ t) =
    let rest = Bytes_discrete s t in
    elim (ℕ_discrete a b) [
      | yes p ↦ elim rest [ yes q ↦ yes (ap₂ ◌∷◌ p q) | no n ↦ no (tail-ne n) ]
      | no n ↦ no (head-ne n)
    ]
