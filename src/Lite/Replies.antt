-- ===== src/Lite/Replies.antt =====
-- What the entry points of Lite/Wrappers make of the sizes that they are given.
use freelite.Base.{ℕ, ◌+◌, ◌*◌, ◌/◌, ◌%◌, ◌^◌, ◌≤◌, ◌<◌, ℤ, pos, false, ◌≡◌, refl, arith}
use freelite.Lite.{Kernel, too_big}
use freelite.Lite.Packing.{size_and_priority_fields, below_limit}
use freelite.Lite.Wrappers.{round_up, send_reply_imm, send_reply_imm_at}

-- A size that a page can be added to within 64 bits is rounded up to whole pages, and by less than
-- a page.
pub round_up_pages :
    (size : ℕ)
    → size + 4096 ≤ 2 ^ 64
    → (round_up size % 4096 ≡ 0) × (size ≤ round_up size) × (round_up size < size + 4096)
unfolding round_up
round_up_pages size h = (omega arith, omega arith, omega arith)

module _ {W : Type 0} (k : Kernel W) where
  -- `send_reply_imm` does not shift the size of the reply past the bits of the priority. With a
  -- reply size of n, below the limit, it makes the system call that the variant with a priority
  -- makes for a reply size of n / 64 and the priority n % 64.
  pub send_reply_imm_unshifted :
      (target_node : ℤ) (port addr : ℕ) (size : ℤ) (ret_addr n : ℕ) (w : W)
      → too_big (pos n) ≡ false
      → send_reply_imm k target_node port addr size ret_addr (pos n) w
        ≡ send_reply_imm_at k (n % 64) target_node port addr size ret_addr (pos (n / 64)) w
  unfolding send_reply_imm send_reply_imm_at
  send_reply_imm_unshifted target_node port addr size ret_addr n w small =
      let small' : too_big (pos (n / 64)) ≡ false = lower n small in
      let word = size_and_priority_fields (n / 64) (n % 64) small' (omega arith) in
      let same : n / 64 * 64 + n % 64 ≡ n = omega arith in rw (small, small', word, same) refl
    where
      lower : (m : ℕ) → too_big (pos m) ≡ false → too_big (pos (m / 64)) ≡ false
      lower m h = let s = below_limit m h in ground arith
