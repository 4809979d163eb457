-- ===== src/TestRpc/Ring.antt =====
-- client/test_rpc.c, `test_async_rpc_send`: requests that are sent without a wait, and the wait for a
-- batch of them at each of its multiples. `poll_array` is memory of `async_batch_size` ints, which the
-- router shares. `mlock`, the printing and the clock are left out, and with the clock the times that are
-- recorded under an option that is off by default (`record_async_latency`): with it on, a measured time
-- that is not above 0 ends the program (`BUG`).
use native.Mathlib.Nat.{pow-succ'}
use freelite.Base.{
  ℕ, zero, suc, ◌+◌, ◌-◌, ◌*◌, ◌/◌, ◌%◌, ◌^◌, ◌<◌, ℤ, pos, eq_ℤ, Bool, true, false, not, ◌&&◌, ◌==◌,
  Option, none, some, ◌≡◌, ◌⊎◌, inl, inr, refl, ap, arith, if◌then◌else◌, Bool-cases,
}
use freelite.Lite.{send_reply_wait}
use freelite.Rpc.{RpcRspMsg}
use freelite.Client.{Client, ClientOs}
use freelite.Client.Calls
use freelite.TestRpc.{async_rpc}
use freelite.TestRpc.Threads.{ThreadInfo}

-- `x & y` of words of `width` bits.
unfoldable pub bits_and : ℕ → ℕ → ℕ → ℕ
bits_and zero x y = 0
bits_and (suc width) x y = bits_and width (x / 2) (y / 2) * 2 + x % 2 * (y % 2)

-- `(base + k) & async_batch_size` with `base = i - async_batch_size`, in words of 32 bits.
unfoldable pub awaited : ℕ → ℕ → ℕ → ℕ
awaited async_batch_size i k =
    bits_and 32 ((i + 2 ^ 32 - async_batch_size + k) % 2 ^ 32) async_batch_size

-- The memory of the process: `elapse` is what others do to it between two reads.
pub record Memory (W : Type 0) : Type 0 where
  pub load_int : ℕ → W → ℤ
  pub elapse : W → W

-- The addresses that the calls of `alloc_local_mem` before the loop give.
pub record Buffers : Type 0 where
  pub remote_write : ℕ
  pub remote_read : ℕ
  pub poll_array : ℕ
  pub remote_poll_array : ℕ

module _ {W : Type 0} (memory : Memory W) where
  abbrev pub async_rpc_completed : ℕ → W → Bool
  async_rpc_completed poll w = not (eq_ℤ (memory.load_int poll w) send_reply_wait)

  -- The time-out only prints. `none` when the fuel is used up.
  unfoldable pub wait_for_completion : ℕ → ℕ → Client W → Option (Client W)
  wait_for_completion zero poll s = none
  wait_for_completion (suc fuel) poll s =
      let rest = wait_for_completion fuel poll (record s { world = memory.elapse s.world }) in
      if async_rpc_completed poll s.world then some s else rest

  -- The loop over `k`, with `left` rounds to go.
  unfoldable pub wait_batch : ℕ → ℕ → ℕ → ℕ → ℕ → ℕ → Client W → Option (Client W)
  wait_batch fuel poll_array async_batch_size i k zero s = some s
  wait_batch fuel poll_array async_batch_size i k (suc left) s =
      elim (wait_for_completion fuel (poll_array + 4 * awaited async_batch_size i k) s) [
        | none ↦ none
        | some s' ↦ wait_batch fuel poll_array async_batch_size i (suc k) left s'
      ]

module _ {W : Type 0} (os : ClientOs W) (junk : RpcRspMsg) (memory : Memory W) (info : ThreadInfo)
    (b : Buffers) where
  -- One round of the loop over `i`.
  unfoldable pub one_rpc : ℕ → ℕ → ℕ → Client W → Option (Client W)
  one_rpc fuel async_batch_size i s =
      let sent =
        async_rpc os junk (pos info.remote_nid) info.outbound_port b.remote_write (pos 4)
          b.remote_read (b.remote_poll_array + 4 * (i % async_batch_size)) (pos 4096) s in
      if i % async_batch_size == 0 && not (i == 0)
      then wait_batch memory fuel b.poll_array async_batch_size i 0 async_batch_size sent.1
      else some sent.1

  -- The loop from `i` on, with `left` rounds to go.
  unfoldable pub rpcs : ℕ → ℕ → ℕ → ℕ → Client W → Option (Client W)
  unfolding one_rpc
  rpcs fuel async_batch_size i zero s = some s
  rpcs fuel async_batch_size i (suc left) s = elim (one_rpc fuel async_batch_size i s) [
    | none ↦ none
    | some s' ↦ rpcs fuel async_batch_size (suc i) left s'
  ]

module _ {W : Type 0} (os : ClientOs W) (junk : RpcRspMsg) (info : ThreadInfo) (b : Buffers) where
  -- The same requests without any wait.
  unfoldable pub send_all : ℕ → ℕ → ℕ → Client W → Client W
  send_all async_batch_size i zero s = s
  send_all async_batch_size i (suc left) s =
      let s' =
        (Calls.send_reply_imm_fast os junk (pos info.remote_nid) info.outbound_port b.remote_write
          (pos 4) b.remote_read (b.remote_poll_array + 4 * (i % async_batch_size)) (pos 4096)
          s).1 in
      send_all async_batch_size (suc i) left s'

bits_and-zero : (width x : ℕ) → bits_and width x 0 ≡ 0
unfolding bits_and
bits_and-zero zero x = refl
bits_and-zero (suc width) x = omega (arith, bits_and-zero width (x / 2))

-- A mask of one bit leaves that bit or nothing.
bits_and-power :
    (m width x : ℕ) → (bits_and width x (2 ^ m) ≡ 0) ⊎ (bits_and width x (2 ^ m) ≡ 2 ^ m)
unfolding bits_and
bits_and-power m zero x = inl refl
bits_and-power zero (suc width) x = ground (arith, bits_and-zero width (x / 2))
bits_and-power (suc m) (suc width) x =
    let half : 2 ^ suc m / 2 ≡ 2 ^ m = omega (arith, pow-succ' 2 m) in
    let even : 2 ^ suc m % 2 ≡ 0 = omega (arith, pow-succ' 2 m) in
    rw (half, even)
      (elim (bits_and-power m width (x / 2)) [
        | inl e ↦ inl (rw e (omega arith))
        | inr e ↦ inr (rw e (omega (arith, pow-succ' 2 m)))
      ])

two_pow_pos : (m : ℕ) → 0 < 2 ^ m
two_pow_pos zero = omega arith
two_pow_pos (suc m) = omega (arith, two_pow_pos m, pow-succ' 2 m)

module _ {W : Type 0} (memory : Memory W) (m : ℕ) (b : Buffers)
    (first : (w : W) → eq_ℤ (memory.load_int b.poll_array w) send_reply_wait ≡ false)
    (past_end : (w : W)
      → eq_ℤ (memory.load_int (b.poll_array + 4 * 2 ^ m) w) send_reply_wait ≡ false) where
  awaited_is_complete :
      (i k : ℕ) (w : W)
      → async_rpc_completed memory (b.poll_array + 4 * awaited (2 ^ m) i k) w ≡ true
  unfolding awaited
  awaited_is_complete i k w =
      let at_zero : b.poll_array + 4 * 0 ≡ b.poll_array = omega arith in
      elim (bits_and-power m 32 ((i + 2 ^ 32 - 2 ^ m + k) % 2 ^ 32)) [
        | inl e ↦ rw (e, awaited, at_zero) (ap not (first w))
        | inr e ↦ rw (e, awaited) (ap not (past_end w))
      ]

  wait_batch-ends :
      (fuel i k left : ℕ) (s : Client W)
      → wait_batch memory (suc fuel) b.poll_array (2 ^ m) i k left s ≡ some s
  unfolding wait_batch wait_for_completion
  wait_batch-ends fuel i k zero s = refl
  wait_batch-ends fuel i k (suc left) s =
      rw (awaited_is_complete i k s.world, wait_batch, wait_for_completion)
        (wait_batch-ends fuel i (suc k) left s)

  module _ (os : ClientOs W) (junk : RpcRspMsg) (info : ThreadInfo) where
    one_rpc-sends :
        (fuel i : ℕ) (s : Client W)
        → one_rpc os junk memory info b (suc fuel) (2 ^ m) i s
          ≡ some
              (Calls.send_reply_imm_fast os junk
                (pos info.remote_nid)
                info.outbound_port
                b.remote_write
                (pos 4)
                b.remote_read
                (b.remote_poll_array + 4 * (i % 2 ^ m))
                (pos 4096)
                s).1
    unfolding one_rpc async_rpc
    one_rpc-sends fuel i s = elim (Bool-cases (i % 2 ^ m == 0 && not (i == 0))) [
      | inl full ↦ rw (full, one_rpc) (wait_batch-ends fuel i 0 (2 ^ m) _)
      | inr not_yet ↦ rw (not_yet, one_rpc) refl
    ]

    -- With a batch size that is a power of two, as the default 32, when neither entry 0 of the array
    -- nor the int past its end ever holds SEND_REPLY_WAIT: the loop ends, with fuel for one look at
    -- each entry, in the state that sending all requests by `send_reply_imm_fast` without any wait
    -- leads to, whatever the other entries hold.
    pub rpcs-send_all :
        (fuel i left : ℕ) (s : Client W)
        → rpcs os junk memory info b (suc fuel) (2 ^ m) i left s
          ≡ some (send_all os junk info b (2 ^ m) i left s)
    unfolding rpcs send_all
    rpcs-send_all fuel i zero s = refl
    rpcs-send_all fuel i (suc left) s =
        rw (one_rpc-sends fuel i s, rpcs) (rpcs-send_all fuel (suc i) left _)
