-- ===== src/Lite/Wrappers.antt =====
-- router/lib/lite-lib.c: the entry points to the kernel that the router itself does not call.
use freelite.Base.{
  ℕ, ◌+◌, ◌-◌, ◌*◌, ◌/◌, ◌%◌, ◌^◌, ℤ, pos, minus_one, is_neg, Bytes, ◌||◌, ◌==◌, ltb, [], ◌∷◌,
  Option, none, some, length, if◌then◌else◌,
}
use freelite.Lite.Numbers.{
  nr_add_ask_mr_table, nr_ask_lmr, nr_ask_lock, nr_compare_swp, nr_create_lock, nr_fetch_add,
  nr_join, nr_lock, nr_rdma_read_async, nr_receive_message, nr_remote_memset,
  nr_reply_and_receive_message, nr_send_reply_imm, nr_unlock,
}
use freelite.Base.State.{M}
use freelite.Lite.{
  int, uint, ptr, buf, Kernel, too_big, size_and_port, size_and_priority, null_priority,
  high_priority, low_priority, rdma_write_at, rdma_read_at, receive_message_fast,
}
use freelite.Shm.{map_failed}

-- PAGE_SHIFT
abbrev pub page_size : ℕ
page_size = 4096

-- `roundup_size`, an `unsigned long`.
unfoldable pub round_up : ℕ → ℕ
round_up size = (page_size + size - 1) % 2 ^ 64 / page_size * page_size

module _ {W : Type 0} (k : Kernel W) where
  -- `userspace_liteapi_receive_message` and its two variants, by their priority.
  unfoldable pub receive_message_at : ℕ → ℕ → ℕ → ℤ → ℕ → ℤ → M W ℤ
  unfolding size_and_port
  receive_message_at priority port ret_addr receive_size descriptor block_call =
      k.syscall nr_receive_message (
        uint (size_and_port receive_size port)
        ∷ ptr ret_addr
        ∷ ptr descriptor
        ∷ int (pos 0)
        ∷ int block_call
        ∷ uint priority
        ∷ [])

  abbrev pub receive_message : ℕ → ℕ → ℤ → ℕ → ℤ → M W ℤ
  receive_message = receive_message_at null_priority

  abbrev pub receive_message_high : ℕ → ℕ → ℤ → ℕ → ℤ → M W ℤ
  receive_message_high = receive_message_at high_priority

  abbrev pub receive_message_low : ℕ → ℕ → ℤ → ℕ → ℤ → M W ℤ
  receive_message_low = receive_message_at low_priority

  -- The result is that of the local variable `ret`, which is never written: it holds `junk`.
  unfoldable pub receive_message_fast_record : ℤ → ℕ → ℕ → ℕ → ℤ → ℕ → ℕ → ℤ → W → Option (ℤ × W)
  receive_message_fast_record junk fuel port ret_addr receive_size descriptor ret_length block_call
        w =
      elim (receive_message_fast k fuel port ret_addr receive_size descriptor ret_length block_call
        w) [ none ↦ none | some (n, w') ↦ some (junk, w') ]

  unfoldable pub send : ℤ → ℕ → ℕ → ℤ → M W ℤ
  unfolding size_and_port
  send target_node port addr size w =
      if too_big size
      then (minus_one, w)
      else k.syscall nr_send_reply_imm
          (int target_node
            ∷ uint (size_and_port size port)
            ∷ ptr addr
            ∷ int (pos 0)
            ∷ int (pos 0)
            ∷ int (pos 0)
            ∷ [])
          w

  -- The last argument is the bare `max_ret_size`.
  unfoldable pub send_reply_imm : ℤ → ℕ → ℕ → ℤ → ℕ → ℤ → M W ℤ
  unfolding size_and_port
  send_reply_imm target_node port addr size ret_addr max_ret_size w =
      if too_big size || too_big max_ret_size
      then (minus_one, w)
      else k.syscall nr_send_reply_imm
          (int target_node
            ∷ uint (size_and_port size port)
            ∷ ptr addr
            ∷ ptr ret_addr
            ∷ int (pos 0)
            ∷ int max_ret_size
            ∷ [])
          w

  -- `userspace_liteapi_send_reply_imm_high` and `..._low`, by their priority.
  unfoldable pub send_reply_imm_at : ℕ → ℤ → ℕ → ℕ → ℤ → ℕ → ℤ → M W ℤ
  unfolding size_and_port size_and_priority
  send_reply_imm_at priority target_node port addr size ret_addr max_ret_size w =
      if too_big size || too_big max_ret_size
      then (minus_one, w)
      else k.syscall nr_send_reply_imm
          (int target_node
            ∷ uint (size_and_port size port)
            ∷ ptr addr
            ∷ ptr ret_addr
            ∷ int (pos 0)
            ∷ int (size_and_priority max_ret_size priority)
            ∷ [])
          w

  abbrev pub send_reply_imm_high : ℤ → ℕ → ℕ → ℤ → ℕ → ℤ → M W ℤ
  send_reply_imm_high = send_reply_imm_at high_priority

  abbrev pub send_reply_imm_low : ℤ → ℕ → ℕ → ℤ → ℕ → ℤ → M W ℤ
  send_reply_imm_low = send_reply_imm_at low_priority

  unfoldable pub ask_lmr : ℤ → ℕ → ℕ → ℤ → M W ℤ
  ask_lmr memory_node identifier permission password =
      k.syscall nr_ask_lmr (int memory_node ∷ uint identifier ∷ uint permission ∷ int password ∷ [])

  abbrev pub rdma_write_high : ℕ → ℕ → ℕ → ℕ → ℤ → M W ℤ
  rdma_write_high = rdma_write_at k high_priority

  abbrev pub rdma_write_low : ℕ → ℕ → ℕ → ℕ → ℤ → M W ℤ
  rdma_write_low = rdma_write_at k low_priority

  abbrev pub rdma_read_high : ℕ → ℕ → ℕ → ℕ → ℤ → M W ℤ
  rdma_read_high = rdma_read_at k high_priority

  abbrev pub rdma_read_low : ℕ → ℕ → ℕ → ℕ → ℤ → M W ℤ
  rdma_read_low = rdma_read_at k low_priority

  unfoldable pub async_rdma_read : ℕ → ℕ → ℕ → ℕ → ℕ → M W ℤ
  async_rdma_read lite_handler local_addr size offset poll = k.syscall nr_rdma_read_async (
      uint lite_handler
      ∷ ptr local_addr
      ∷ uint size
      ∷ uint null_priority
      ∷ uint offset
      ∷ ptr poll
      ∷ [])

  -- `open_mmap` opens the device /dev/lite_mmap; `mmap` maps a size of a descriptor.
  unfoldable pub alloc_memory : M W ℤ → (ℕ → ℤ → M W ℕ) → ℕ → M W ℕ
  unfolding round_up
  alloc_memory open_mmap mmap size w =
      let fd = open_mmap w in
      let addr = mmap (round_up size) fd.0 fd.1 in
      (if addr.0 == map_failed then 0 else addr.0, addr.1)

  -- `if (ret >= 0) return ret;`, then a message and `return 0`.
  unfoldable pub or_zero : ℤ × W → ℤ × W
  or_zero r = (if is_neg r.0 then pos 0 else r.0, r.1)

  unfoldable pub create_lock : ℤ → ℕ → M W ℤ
  unfolding or_zero
  create_lock target_node input w =
      or_zero (k.syscall nr_create_lock (int target_node ∷ ptr input ∷ []) w)

  unfoldable pub ask_lock : ℤ → ℤ → ℕ → M W ℤ
  unfolding or_zero
  ask_lock target_node target_idx input w =
      or_zero (k.syscall nr_ask_lock (int target_node ∷ int target_idx ∷ ptr input ∷ []) w)

  unfoldable pub lock : ℕ → M W ℤ
  lock input = k.syscall nr_lock (ptr input ∷ [])

  unfoldable pub unlock : ℕ → M W ℤ
  unlock input = k.syscall nr_unlock (ptr input ∷ [])

  unfoldable pub remote_memset : ℕ → ℤ → ℤ → M W ℤ
  remote_memset lite_handler offset size =
      k.syscall nr_remote_memset (uint lite_handler ∷ int offset ∷ int size ∷ [])

  unfoldable pub add_ask_mr_table : ℕ → ℕ → ℕ → ℤ → M W ℤ
  add_ask_mr_table identifier lmr permission password =
      k.syscall nr_add_ask_mr_table
        (uint identifier ∷ uint lmr ∷ uint permission ∷ int password ∷ [])

  unfoldable pub compare_swp : ℕ → ℕ → ℕ → ℕ → M W ℤ
  compare_swp lite_handler local_addr guess_value set_value =
      k.syscall nr_compare_swp
        (uint lite_handler ∷ ptr local_addr ∷ uint guess_value ∷ uint set_value ∷ int (pos 0) ∷ [])

  unfoldable pub fetch_add : ℕ → ℕ → ℕ → M W ℤ
  fetch_add lite_handler local_addr input_value =
      k.syscall nr_fetch_add
        (uint lite_handler ∷ ptr local_addr ∷ uint input_value ∷ int (pos 0) ∷ [])

  -- `size * IMM_MAX_PORT + port` has no guard.
  unfoldable pub reply_and_receive_message : ℕ → ℤ → ℕ → ℕ → ℕ → ℤ → ℕ → M W ℤ
  unfolding size_and_port
  reply_and_receive_message addr size descriptor port ret_addr receive_size receive_descriptor =
      k.syscall nr_reply_and_receive_message (
        ptr addr
        ∷ uint (size_and_port size port)
        ∷ uint descriptor
        ∷ ptr ret_addr
        ∷ int receive_size
        ∷ ptr receive_descriptor
        ∷ [])

  -- `strcpy` into an array of 32 bytes; `none` is a copy that leaves it.
  unfoldable pub join : Bytes → ℤ → ℤ → W → Option (ℤ × W)
  join input_str eth_port ib_port w =
      if ltb (length input_str) 32
      then some (k.syscall nr_join (buf input_str ∷ int eth_port ∷ int ib_port ∷ []) w)
      else none
