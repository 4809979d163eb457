-- ===== src/Lite/Packing.antt =====
-- Sizes, ports and priorities share a word (router/lib/lite-lib.c): six low bits, and the size above.
use freelite.Base.{
  ℕ, ◌+◌, ◌*◌, ◌/◌, ◌%◌, ◌^◌, ◌≤◌, ◌<◌, pos, negsuc, to_u32, to_i32, false, ◌≡◌, refl, arith,
}
use freelite.Lite.{too_big, size_and_port, size_and_priority}

pub below_limit : (n : ℕ) → too_big (pos n) ≡ false → n < 2 ^ 22
below_limit n h = ground arith

-- A size that passes the guard and is not negative, and a port of six bits, are both read back from
-- the word that is passed to the kernel.
pub size_and_port_fields :
    (n port : ℕ)
    → too_big (pos n) ≡ false
    → port < 64
    → (size_and_port (pos n) port / 64 ≡ n) × (size_and_port (pos n) port % 64 ≡ port)
unfolding size_and_port to_u32
size_and_port_fields n port small p = let s = below_limit n small in (omega arith, omega arith)

-- For a size that passes the guard and is not negative, and a priority of six bits, the word of the two
-- is the size times 64 plus the priority: it does not overflow an `int`.
pub size_and_priority_fields :
    (n priority : ℕ)
    → too_big (pos n) ≡ false
    → priority < 64
    → size_and_priority (pos n) priority ≡ pos (n * 64 + priority)
unfolding size_and_priority to_u32 to_i32
size_and_priority_fields n priority small p = let s = below_limit n small in ground arith

-- A negative size above -2 ^ 25 passes the guard, and with a port of six bits the word that is passed
-- to the kernel has a size of 4 MiB or more in it.
pub negative_size_passes :
    (n port : ℕ)
    → n < 2 ^ 25
    → port < 64
    → (too_big (negsuc n) ≡ false) × (2 ^ 22 ≤ size_and_port (negsuc n) port / 64)
unfolding size_and_port to_u32
negative_size_passes n port h p = (refl, omega arith)
