-- ===== src/Base/State.antt =====
-- Stateful code: a computation takes the state and returns its result with the new state.
abbrev pub M {ℓ κ} : Type ℓ → Type κ → Type (ℓ ⊔ κ)
M S A = S → A × S

abbrev pub pure {ℓ κ} : {S : Type ℓ} {A : Type κ} → A → M S A
pure a s = (a, s)

infixl 5 ◌>>=◌ ◌>>◌
abbrev pub ◌>>=◌ {ℓ κ μ} : {S : Type ℓ} {A : Type κ} {B : Type μ} → M S A → (A → M S B) → M S B
◌>>=◌ m f s = let r = m s in f r.0 r.1

abbrev pub ◌>>◌ {ℓ κ} : {S : Type ℓ} {B : Type κ} → M S (Unit {0}) → M S B → M S B
◌>>◌ m k s = k (m s).1

abbrev pub modify {ℓ} : {S : Type ℓ} → (S → S) → M S (Unit {0})
modify f s = (tt, f s)

abbrev pub get {ℓ} : {S : Type ℓ} → M S S
get s = (s, s)
