-- ===== src/Base/Int.antt =====
-- `int` and `unsigned int` of 32 bits. An `int` is an integer; an `unsigned int` is a number below
-- 2 ^ 32. Conversions are those of the compilers the program is built with: modulo 2 ^ 32.
use Prim.Native.Nat.{ℕ, zero, suc, ◌-◌, ◌%◌, ◌^◌, ◌≤◌}
use mathlib.Core.Logic.{◌≢◌}
use mathlib.Core.Path.{◌≡◌, sym, ap}
use mathlib.Core.Bool.{Bool, true, false}
use native.Mathlib.Omega.{arith}
unfoldable pub use native.Mathlib.Decide.{ℕ_discrete}
use freelite.Base.Tests.{ltb, ◌==◌, if◌then◌else◌}

-- `negsuc n` is -(n + 1).
pub data ℤ : Type 0 where
  pos : ℕ → ℤ
  negsuc : ℕ → ℤ

abbrev pub minus_one : ℤ
minus_one = negsuc 0

pub pos_ne : {a b : ℕ} → a ≢ b → ¬ (pos a ≡ pos b)
pos_ne h e = h (cc)

pub negsuc_ne : {a b : ℕ} → a ≢ b → ¬ (negsuc a ≡ negsuc b)
negsuc_ne h e = h (cc)

pub pos-ne-negsuc : {a b : ℕ} → ¬ (pos a ≡ negsuc b)
pos-ne-negsuc e = cc

unfoldable pub ℤ_discrete : Discrete ℤ
unfolding ℕ_discrete
ℤ_discrete (pos a) (pos b) = elim (ℕ_discrete a b) [ yes p ↦ yes (ap pos p) | no n ↦ no (pos_ne n) ]
ℤ_discrete (pos a) (negsuc b) = no pos-ne-negsuc
ℤ_discrete (negsuc a) (pos b) = no (λ e. pos-ne-negsuc (sym e))
ℤ_discrete (negsuc a) (negsuc b) = elim (ℕ_discrete a b) [
  | yes p ↦ yes (ap negsuc p)
  | no n ↦ no (negsuc_ne n)
]

abbrev pub is_neg : ℤ → Bool
is_neg (pos n) = false
is_neg (negsuc n) = true

abbrev pub eq_ℤ : ℤ → ℤ → Bool
eq_ℤ (pos a) (pos b) = a == b
eq_ℤ (negsuc a) (negsuc b) = a == b
eq_ℤ _ _ = false

abbrev pub ltb_ℤ : ℤ → ℤ → Bool
ltb_ℤ (pos a) (pos b) = ltb a b
ltb_ℤ (negsuc a) (negsuc b) = ltb b a
ltb_ℤ (pos a) (negsuc b) = false
ltb_ℤ (negsuc a) (pos b) = true

abbrev pub int_max : ℕ
int_max = 2 ^ 31 - 1

-- `++x` on an `int`, with the wrap-around that the machine instruction has.
unfoldable pub incr : ℤ → ℤ
incr (pos n) = if n == int_max then negsuc int_max else pos (suc n)
incr (negsuc zero) = pos 0
incr (negsuc (suc n)) = negsuc n

-- `(unsigned int) x` and `(int) x`.
unfoldable pub to_u32 : ℤ → ℕ
to_u32 (pos n) = n % 2 ^ 32
to_u32 (negsuc n) = 2 ^ 32 - 1 - n % 2 ^ 32

unfoldable pub to_i32 : ℕ → ℤ
to_i32 n = let m = n % 2 ^ 32 in if ltb m (2 ^ 31) then pos m else negsuc (2 ^ 32 - 1 - m)

-- The range of an `int`.
abbrev pub IsInt : ℤ → Type 0
IsInt (pos n) = n ≤ int_max
IsInt (negsuc n) = n ≤ int_max

-- An `int` that is passed as an `unsigned int` and read as an `int` again is the same.
pub to_i32-to_u32 : (x : ℤ) → IsInt x → to_i32 (to_u32 x) ≡ x
unfolding to_u32 to_i32
to_i32-to_u32 (pos n) h = ground arith
to_i32-to_u32 (negsuc n) h = ground arith
