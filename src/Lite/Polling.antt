-- ===== src/Lite/Polling.antt =====
-- The polling loops of router/lib/lite-lib.c: they end as soon as the kernel has written the cell,
-- and never if it does not.
use freelite.Base.{
  ℕ, zero, suc, ◌≤◌, ◌<◌, ℤ, negsuc, is_neg, ℕ_discrete, eq_ℤ, true, false, ◌||◌, [], ◌∷◌, none,
  some, ◌≡◌, ◌≢◌, ◌⊎◌, inl, inr, refl, arith, Bool-cases,
}
use freelite.Lite.{
  Kernel, uint, int, ptr, check, sleep, take_message, receive_message_fast, poll_reply,
  send_reply_imm_fast, send_reply_wait, too_big, check_length, size_and_port, size_and_priority,
  null_priority, imm_send_only_flag,
}

module _ {W : Type 0} (k : Kernel W) where
  -- The world after `n` reads of a cell that is polled.
  abbrev pub later : ℕ → W → W
  later zero w = w
  later (suc n) w = later n (k.elapse w)

  -- A cell is read, and read again after a while as long as it is 0. The world at the first read that
  -- finds it written, which is at most the `n`-th after this one.
  pub data FirstWritten (d : ℕ) : ℕ → W → W → Type 0 where
    now : (n : ℕ) (w : W) → k.load_word d w ≢ 0 → FirstWritten d n w w
    again :
        (n : ℕ) (w w' : W)
        → k.load_word d w ≡ 0
        → FirstWritten d n (k.elapse w) w'
        → FirstWritten d (suc n) w w'

  FirstWritten-exists :
      (d n : ℕ) (w : W) → k.load_word d (later n w) ≢ 0 → (w' : W) × FirstWritten d n w w'
  FirstWritten-exists d zero w h = (w, now zero w h)
  FirstWritten-exists d (suc n) w h = elim (ℕ_discrete (k.load_word d w) 0) [
    | yes empty ↦
        let (w', first) = FirstWritten-exists d n (k.elapse w) h in (w', again n w w' empty first)
    | no full ↦ (w, now (suc n) w full)
  ]

  check-full : (d c : ℕ) (w : W) → k.load_word d w ≢ 0 → check k d (suc c) w ≡ w
  unfolding check
  check-full d c w full = ground arith

  check-empty :
      (d c : ℕ) (w : W) → k.load_word d w ≡ 0 → check k d (suc c) w ≡ check k d c (k.elapse w)
  unfolding check
  check-empty d c w empty = ground arith

  -- The first loop leaves that read in reach of the second.
  check-FirstWritten :
      (d c : ℕ) {n : ℕ} {w w' : W}
      → FirstWritten d n w w'
      → (m : ℕ) × (m ≤ n) × FirstWritten d m (check k d c w) w'
  unfolding check
  check-FirstWritten d zero {n} first = (n, omega arith, first)
  check-FirstWritten d (suc c) (now n w full) =
      (n, omega arith, rw (check-full d c w full) (now n w full))
  check-FirstWritten d (suc c) (again n w w' empty first) =
      let (m, le, still) = check-FirstWritten d c first in
      (m, omega arith, rw (check-empty d c w empty) still)

  sleep-FirstWritten :
      (d fuel : ℕ) {n : ℕ} {w w' : W}
      → FirstWritten d n w w'
      → n < fuel
      → sleep k d fuel w ≡ some w'
  unfolding sleep
  sleep-FirstWritten d zero first lt = absurd (omega arith)
  sleep-FirstWritten d (suc fuel) (now n w full) lt = ground arith
  sleep-FirstWritten d (suc fuel) (again n w w' empty first) lt =
      ground (arith, sleep-FirstWritten d fuel first (omega arith))

  sleep-never :
      (d fuel : ℕ) (w : W) → ((n : ℕ) → k.load_word d (later n w) ≡ 0) → sleep k d fuel w ≡ none
  unfolding sleep
  sleep-never d zero w h = refl
  sleep-never d (suc fuel) w h =
      ground (arith, h 0, sleep-never d fuel (k.elapse w) (λ n. h (suc n)))

  check-never :
      (d c : ℕ) (w : W)
      → ((n : ℕ) → k.load_word d (later n w) ≡ 0)
      → (n : ℕ) → k.load_word d (later n (check k d c w)) ≡ 0
  unfolding check
  check-never d zero w h n = h n
  check-never d (suc c) w h n = ground (arith, h 0, check-never d c (k.elapse w) (λ m. h (suc m)) n)

  poll_reply-later :
      (d fuel n : ℕ) (w : W)
      → eq_ℤ (k.load_int d (later n w)) send_reply_wait ≡ false
      → n < fuel
      → (w' : W) × (poll_reply k d fuel w ≡ some w')
        × (eq_ℤ (k.load_int d w') send_reply_wait ≡ false)
  unfolding poll_reply
  poll_reply-later d zero n w h lt = absurd (omega arith)
  poll_reply-later d (suc fuel) zero w h lt = (w, rw (h, poll_reply), h)
  poll_reply-later d (suc fuel) (suc n) w h lt =
      elim (Bool-cases (eq_ℤ (k.load_int d w) send_reply_wait)) [
        | inl waits ↦
            rw (waits, poll_reply) (poll_reply-later d fuel n (k.elapse w) h (omega arith))
        | inr done ↦ (w, rw (done, poll_reply), done)
      ]

  -- The system call that `userspace_liteapi_receive_message_fast` makes.
  abbrev pub receive_call : ℕ → ℕ → ℤ → ℕ → ℕ → ℤ → W → ℤ × W
  receive_call port ret_addr receive_size d ret_length block_call w =
      k.syscall 413
        (uint (size_and_port receive_size port)
          ∷ ptr ret_addr
          ∷ ptr d
          ∷ ptr ret_length
          ∷ int block_call
          ∷ uint null_priority
          ∷ [])
        (k.store_word d 0 w)

  module _ (port ret_addr : ℕ) (receive_size : ℤ) (d ret_length : ℕ) (block_call : ℤ) (w : W) where
    -- The call has returned `r` and left the world `w''`, where `w'` is the one at the read that has
    -- found a descriptor: one that is IMM_SEND_ONLY_FLAG is set to 0, and a negative result `ret` of
    -- the system call gives way to what is in `*ret_length`.
    abbrev pub Gives : ℤ → W → ℤ → W → Type 0
    Gives ret w' r w'' =
        (((k.load_word d w' ≡ imm_send_only_flag) × (w'' ≡ k.store_word d 0 w'))
          ⊎ ((k.load_word d w' ≢ imm_send_only_flag) × (w'' ≡ w')))
        × (((is_neg ret ≡ true) × (r ≡ k.load_int ret_length w''))
            ⊎ ((is_neg ret ≡ false) × (r ≡ ret)))

    take_message-Gives :
        (ret : ℤ) (w' : W)
        → let taken = take_message k d ret_length ret w' in Gives ret w' taken.0 taken.1
    unfolding take_message
    take_message-Gives ret w' = ground arith

    -- If the kernel has written a descriptor by the n-th read after the system call, the call returns,
    -- given fuel beyond n. It has stopped at the first read that finds a descriptor. A descriptor that
    -- is IMM_SEND_ONLY_FLAG is then set to 0, and no other one is touched. The call returns the result
    -- of the system call, or what is in `*ret_length` then if that result is negative.
    pub receive_message_fast-returns :
        (n fuel : ℕ)
        → let called = receive_call port ret_addr receive_size d ret_length block_call w in
          k.load_word d (later n called.1) ≢ 0
          → n < fuel
          → (w' : W) × (r : ℤ) × (w'' : W) × FirstWritten d n called.1 w'
            × (receive_message_fast k fuel port ret_addr receive_size d ret_length block_call w
                ≡ some (r, w''))
            × Gives called.0 w' r w''
    unfolding receive_message_fast
    receive_message_fast-returns n fuel written lt =
        let (w', first) = FirstWritten-exists d n _ written in
        let (m, le, still) = check-FirstWritten d check_length first in
        let e = sleep-FirstWritten d fuel still (omega arith) in
        (w', _, _, first, rw (e, receive_message_fast) refl, take_message-Gives _ w')

    -- If the kernel never writes a descriptor, as after a system call that fails, the call never
    -- returns, whatever the fuel.
    pub receive_message_fast-hangs :
        (fuel : ℕ)
        → let called = receive_call port ret_addr receive_size d ret_length block_call w in
          ((n : ℕ) → k.load_word d (later n called.1) ≡ 0)
          → receive_message_fast k fuel port ret_addr receive_size d ret_length block_call w ≡ none
    unfolding receive_message_fast
    receive_message_fast-hangs fuel never =
        rw (sleep-never d fuel _ (check-never d check_length _ never), receive_message_fast)

  -- The system call that `userspace_liteapi_send_reply_imm_fast` makes.
  abbrev pub send_call : ℤ → ℕ → ℕ → ℤ → ℕ → ℕ → ℤ → W → ℤ × W
  send_call target_node port addr size ret_addr ret_length max_ret_size = k.syscall 414 (
      int target_node
      ∷ uint (size_and_port size port)
      ∷ ptr addr
      ∷ ptr ret_addr
      ∷ ptr ret_length
      ∷ int (size_and_priority max_ret_size null_priority)
      ∷ [])

  module _ (target_node : ℤ) (port addr : ℕ) (size : ℤ) (ret_addr ret_length : ℕ) (max_ret_size : ℤ)
      (w : W) where
    -- A size or a reply size of 4 MiB or more is refused, with -1 and no system call. Otherwise, if
    -- `*ret_length` is not the waiting mark at the n-th read, the call returns, given fuel beyond n,
    -- and what it returns is in `*ret_length` and is not the waiting mark.
    pub send_reply_imm_fast-returns :
        (n fuel : ℕ)
        → let called = send_call target_node port addr size ret_addr ret_length max_ret_size w in
          let sent =
            send_reply_imm_fast k fuel target_node port addr size ret_addr ret_length max_ret_size
              w in
          eq_ℤ (k.load_int ret_length (later n called.1)) send_reply_wait ≡ false
          → n < fuel
          → ((too_big size || too_big max_ret_size) ≡ true) × (sent ≡ some (negsuc 0, w))
            ⊎ ((too_big size || too_big max_ret_size) ≡ false)
              × ((w' : W) × (sent ≡ some (k.load_int ret_length w', w'))
                  × (eq_ℤ (k.load_int ret_length w') send_reply_wait ≡ false))
    unfolding send_reply_imm_fast
    send_reply_imm_fast-returns n fuel done lt =
        elim (Bool-cases (too_big size || too_big max_ret_size)) [
          | inl big ↦ inl (big, rw (big, send_reply_imm_fast))
          | inr fits ↦
              let (w', e, f) = poll_reply-later ret_length fuel n _ done lt in
              inr (fits, (w', rw (fits, send_reply_imm_fast) (rw (e, send_reply_imm_fast)), f))
        ]
