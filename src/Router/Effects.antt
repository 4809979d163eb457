-- ===== src/Router/Effects.antt =====
-- What a request can change: a case of the `switch` of router/test_router.cpp asks routing.cpp at most
-- once, and otherwise only makes calls of the kernel or of the shared memory.
use freelite.Base.{
  ℕ, zero, suc, Bytes, Bool, true, false, ℤ, List, [], ◌∷◌, some, ◌≡◌, refl, sym, ◌∙◌, arith,
  Option-cases, some_injective, ap, inl, inr,
}
use freelite.Lite
use freelite.Lite.{
  Kernel, Arg, check, sleep, take_message, poll_reply, send_reply_wait, imm_send_only_flag,
  check_length, too_big, int, uint, ptr, size_and_port, size_and_priority, null_priority,
}
use freelite.Lite.Polling.{receive_call, send_call}
use freelite.Shm.{map_shm, alloc_shm_mem, free_shm_mem}
use freelite.Router.{Env}

-- The kernel and the shared memory of a router leave alone what `seen` sees of the world.
pub record Leaves {W A : Type 0} (e : Env W) (seen : W → A) : Type 0 where
  pub syscall : (nr : ℕ) (args : List Arg) (w : W) → seen (e.kernel.syscall nr args w).1 ≡ seen w
  pub store_word : (a x : ℕ) (w : W) → seen (e.kernel.store_word a x w) ≡ seen w
  pub elapse : (w : W) → seen (e.kernel.elapse w) ≡ seen w
  pub shm_open :
      (name : Bytes) (create : Bool) (w : W) → seen (e.shm.shm_open name create w).1 ≡ seen w
  pub ftruncate : (fd : ℤ) (size : ℕ) (w : W) → seen (e.shm.ftruncate fd size w).1 ≡ seen w
  pub mmap : (size : ℕ) (fd : ℤ) (w : W) → seen (e.shm.mmap size fd w).1 ≡ seen w
  pub munmap : (addr size : ℕ) (w : W) → seen (e.shm.munmap addr size w).1 ≡ seen w
  pub shm_unlink : (name : Bytes) (w : W) → seen (e.shm.shm_unlink name w).1 ≡ seen w

module _ {W A : Type 0} (e : Env W) (seen : W → A) (l : Leaves e seen) where
  check-seen : (d c : ℕ) (w : W) → seen (check e.kernel d c w) ≡ seen w
  unfolding check
  check-seen d zero w = refl
  check-seen d (suc c) w = ground (arith, check-seen d c (e.kernel.elapse w), l.elapse w)

  sleep-seen : (d fuel : ℕ) (w w' : W) → sleep e.kernel d fuel w ≡ some w' → seen w' ≡ seen w
  unfolding sleep
  sleep-seen d zero w w' h = cc
  sleep-seen d (suc fuel) w w' h =
      ground (arith, sleep-seen d fuel (e.kernel.elapse w) w', l.elapse w)

  poll_reply-seen :
      (a fuel : ℕ) (w w' : W) → poll_reply e.kernel a fuel w ≡ some w' → seen w' ≡ seen w
  unfolding poll_reply
  poll_reply-seen a zero w w' h = cc
  poll_reply-seen a (suc fuel) w w' h =
      ground (arith, poll_reply-seen a fuel (e.kernel.elapse w) w', l.elapse w)

  take_message-seen :
      (d ret_length : ℕ) (ret : ℤ) (w : W)
      → seen (take_message e.kernel d ret_length ret w).1 ≡ seen w
  unfolding take_message
  take_message-seen d ret_length ret w = ground (arith, l.store_word d 0 w)

  pub receive_message_fast-seen :
      (fuel port ret_addr : ℕ) (receive_size : ℤ) (d ret_length : ℕ) (block_call n : ℤ) (w w' : W)
      → Lite.receive_message_fast e.kernel fuel port ret_addr receive_size d ret_length block_call w
        ≡ some (n, w')
      → seen w' ≡ seen w
  unfolding Lite.receive_message_fast
  receive_message_fast-seen fuel port ret_addr receive_size d ret_length block_call n w w' h =
      let called = receive_call e.kernel port ret_addr receive_size d ret_length block_call w in
      let checked = check e.kernel d check_length called.1 in
      elim (Option-cases (sleep e.kernel d fuel checked)) [
        | inl q ↦ let h' = rw (q, Lite.receive_message_fast) at h in cc
        | inr (w'', q) ↦
            let h' = rw (q, Lite.receive_message_fast) at h in
            ap (λ (o : ℤ × W). seen o.1) (sym (some_injective h'))
            ∙ take_message-seen d ret_length called.0 w''
            ∙ sleep-seen d fuel checked w'' q
            ∙ check-seen d check_length called.1
            ∙ l.syscall 413 _ _
            ∙ l.store_word d 0 w
      ]

  pub send_reply_imm_fast-seen :
      (fuel : ℕ) (node : ℤ) (port addr : ℕ) (size : ℤ) (ret_addr ret_length : ℕ)
      (max_ret_size n : ℤ) (w w' : W)
      → Lite.send_reply_imm_fast e.kernel fuel node port addr size ret_addr ret_length max_ret_size
          w
        ≡ some (n, w')
      → seen w' ≡ seen w
  unfolding Lite.send_reply_imm_fast
  send_reply_imm_fast-seen fuel node port addr size ret_addr ret_length max_ret_size n w w' h =
      let called = send_call e.kernel node port addr size ret_addr ret_length max_ret_size w in
      ground (
        arith,
        poll_reply-seen ret_length fuel called.1 w',
        l.syscall 414
            (int node
              ∷ uint (size_and_port size port)
              ∷ ptr addr
              ∷ ptr ret_addr
              ∷ ptr ret_length
              ∷ int (size_and_priority max_ret_size null_priority)
              ∷ [])
            w,
      )

  map_shm-seen :
      (size : ℕ) (fd : ℤ) (addr : ℕ) (w : W) → seen (map_shm e.shm size fd addr w).1 ≡ seen w
  unfolding map_shm
  map_shm-seen size fd addr w =
      ground (arith, l.ftruncate fd size w, l.mmap size fd (e.shm.ftruncate fd size w).1)

  pub alloc_shm_mem-seen :
      (name : Bytes) (size addr : ℕ) (w : W)
      → seen (alloc_shm_mem e.shm name size addr w).1 ≡ seen w
  unfolding alloc_shm_mem
  alloc_shm_mem-seen name size addr w =
      let created = e.shm.shm_open name true w in
      let opened = e.shm.shm_open name false created.1 in
      ground (
        arith,
        l.shm_open name true w,
        l.shm_open name false created.1,
        map_shm-seen size created.0 addr created.1,
        map_shm-seen size opened.0 addr opened.1,
      )

  pub free_shm_mem-seen :
      (name : Bytes) (size addr : ℕ) (w : W) → seen (free_shm_mem e.shm name size addr w).1 ≡ seen w
  unfolding free_shm_mem
  free_shm_mem-seen name size addr w =
      ground (arith, l.munmap addr size w, l.shm_unlink name (e.shm.munmap addr size w).1)
