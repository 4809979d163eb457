-- ===== src/Latency/Options/Ranges.antt =====
-- The ranges of the options that `main` of client/test_latency.c accepts.
use freelite.Base.{
  ℕ, ◌-◌, ◌*◌, ◌%◌, ◌^◌, ◌≤◌, ℤ, pos, negsuc, ltb_ℤ, to_i32, IsInt, Bool, true, false, List, [],
  ◌∷◌, some, ◌≡◌, ◌⊎◌, inl, inr, refl, arith, if◌then◌else◌, Option-cases, Bool-cases,
  some_injective, ltb,
}
use mathlib.Core.Path.{subst}
use freelite.Latency.Options.{
  Argument, remote_nid, thread, unknown, Options, defaults, accept, parse, read_options, bytes_for,
  rounds,
}

-- What the loop keeps.
pub record InRange (o : Options) : Type 0 where
  pub nid : ltb_ℤ (pos 16) o.remote_node ≡ false
  pub few : ltb_ℤ (pos 56) o.nr_threads ≡ false
  pub int : IsInt o.nr_threads

to_i32-IsInt : (n : ℕ) → IsInt (to_i32 n)
unfolding to_i32
to_i32-IsInt n = go (ltb (n % 2 ^ 32) (2 ^ 31)) refl
  where
    go :
        (b : Bool)
        → ltb (n % 2 ^ 32) (2 ^ 31) ≡ b
        → IsInt (if b then pos (n % 2 ^ 32) else negsuc (2 ^ 32 - 1 - n % 2 ^ 32))
    go true e = ground arith
    go false e = ground arith

accept-InRange : (a : Argument) (o o' : Options) → InRange o → accept a o ≡ some o' → InRange o'
unfolding accept
accept-InRange (remote_nid n) o o' r h = elim (Bool-cases (ltb_ℤ (pos 16) (to_i32 n))) [
  | inl e ↦ let h' = rw e at h in cc
  | inr e ↦
      subst InRange (some_injective (rw e at h)) (record { nid = e; few = r.few; int = r.int })
]
accept-InRange (thread n) o o' r h = elim (Bool-cases (ltb_ℤ (pos 56) (to_i32 n))) [
  | inl e ↦ let h' = rw e at h in cc
  | inr e ↦
      subst InRange (some_injective (rw e at h))
        (record { nid = r.nid; few = e; int = to_i32-IsInt n })
]
accept-InRange unknown o o' r h = cc

parse-InRange :
    (args : List Argument) (o o' : Options) → InRange o → parse args o ≡ some o' → InRange o'
unfolding parse
parse-InRange [] o o' r h = subst InRange (some_injective h) r
parse-InRange (a ∷ args) o o' r h = elim (Option-cases (accept a o)) [
  | inl e ↦ let h' = rw (e, parse) at h in cc
  | inr (o₁, e) ↦ parse-InRange args o₁ o' (accept-InRange a o o₁ r e) (rw (e, parse) at h)
]

-- The state of the variables when the loop and the test after it have passed.
pub nid_range :
    (z : ℤ)
    → ltb_ℤ (pos 16) z ≡ false
    → ltb_ℤ z (pos 1) ≡ false
    → (nid : ℕ) × (z ≡ pos nid) × (1 ≤ nid) × (nid ≤ 16)
nid_range (pos n) h h' = (n, refl, ground arith, ground arith)
nid_range (negsuc n) h h' = cc

pub read_options-InRange :
    (args : List Argument) (o : Options)
    → read_options args ≡ some o
    → InRange o × (ltb_ℤ o.remote_node (pos 1) ≡ false)
unfolding read_options
read_options-InRange args o h = elim (Option-cases (parse args defaults)) [
  | inl e ↦ let h' = rw (e, read_options) at h in cc
  | inr (o', e) ↦
      let r =
        parse-InRange args defaults o' (record { nid = refl; few = refl; int = omega arith }) e in
      elim (Bool-cases (ltb_ℤ o'.remote_node (pos 1))) [
        | inl low ↦ let h' = rw (e, low, read_options) at h in cc
        | inr high ↦
            subst (λ o. InRange o × (ltb_ℤ o.remote_node (pos 1) ≡ false))
              (some_injective (rw (e, high, read_options) at h)) (r, high)
      ]
]

-- A number of threads that is not negative is at most 56, and the products do not wrap around. For a
-- negative one the array `info` would have 2 ^ 63 bytes or more.
pub bytes_for-range :
    (z : ℤ)
    → ltb_ℤ (pos 56) z ≡ false
    → IsInt z
    → (rounds z ≤ 56)
      × (((z ≡ pos (rounds z)) × (bytes_for 56 z ≡ 56 * rounds z))
          ⊎ ((rounds z ≡ 0) × (2 ^ 63 ≤ bytes_for 8 z)))
unfolding bytes_for
bytes_for-range (pos n) few int =
    let small : n ≤ 56 = ground arith in (small, inl (refl, omega arith))
bytes_for-range (negsuc n) few int = (omega arith, inr (refl, omega arith))
