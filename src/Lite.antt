-- ===== src/Lite.antt =====
-- router/lib/lite-lib.c: the router's entry points to the LITE kernel module. The kernel is a
-- parameter: its system calls, and the memory that it shares with the process.
pub mod Numbers
pub mod Packing
pub mod Polling
pub mod Wrappers
pub mod Replies
mod Tests
use freelite.Base.{
  ℕ, zero, suc, ◌+◌, ◌*◌, ◌%◌, ◌^◌, ℤ, pos, minus_one, is_neg, ltb_ℤ, eq_ℤ, to_u32, to_i32, negsuc,
  Bytes, Bool, not, ◌||◌, ◌==◌, List, [], ◌∷◌, Option, none, some, if◌then◌else◌,
}
use freelite.Lite.Numbers.{
  nr_alloc_remote, nr_dist_barrier, nr_get_node_id, nr_get_total_node, nr_query_port, nr_rdma_read,
  nr_rdma_synwrite, nr_receive_message, nr_register_application, nr_reply_message,
  nr_send_reply_imm,
}
use freelite.Base.State.{M}

-- An argument of `syscall`. `buf` is a pointer to a buffer that holds these bytes.
pub data Arg : Type 0 where
  int : ℤ → Arg
  uint : ℕ → Arg
  flag : Bool → Arg
  ptr : ℕ → Arg
  buf : Bytes → Arg

-- `syscall` gives the result as the `int` that every caller makes of it. The rest is memory: an
-- `int` cell, a cell of type `uintptr_t`, and what happens between two reads in a polling loop.
pub record Kernel (W : Type 0) : Type 0 where
  pub syscall : ℕ → List Arg → M W ℤ
  pub load_int : ℕ → W → ℤ
  pub load_word : ℕ → W → ℕ
  pub store_word : ℕ → ℕ → W → W
  pub elapse : W → W

abbrev pub limitation : ℤ
limitation = pos (1024 * 1024 * 4)

abbrev pub null_priority : ℕ
null_priority = 0

abbrev pub high_priority : ℕ
high_priority = 16

abbrev pub low_priority : ℕ
low_priority = 17

-- SEND_REPLY_WAIT, (-101)
abbrev pub send_reply_wait : ℤ
send_reply_wait = negsuc 100

-- IMM_SEND_ONLY_FLAG, 0xffffffffffffffff
abbrev pub imm_send_only_flag : ℕ
imm_send_only_flag = 0xffff_ffff_ffff_ffff

abbrev pub check_length : ℕ
check_length = 100000

-- `size >= LIMITATION`
abbrev pub too_big : ℤ → Bool
too_big size = not (ltb_ℤ size limitation)

-- `(size << IMM_MAX_PORT_BIT) + port`, an `unsigned int`.
unfoldable pub size_and_port : ℤ → ℕ → ℕ
size_and_port size port = (to_u32 size * 64 + port) % 2 ^ 32

-- `(max_ret_size << IMM_MAX_PRIORITY_BIT) + priority`, an `int`.
unfoldable pub size_and_priority : ℤ → ℕ → ℤ
size_and_priority size priority = to_i32 (to_u32 size * 64 + priority)

module _ {W : Type 0} (k : Kernel W) where
  unfoldable pub dist_barrier : ℕ → M W ℤ
  dist_barrier num = k.syscall nr_dist_barrier (uint num ∷ [])

  unfoldable pub alloc_remote_mem : ℕ → ℕ → Bool → ℤ → M W ℤ
  alloc_remote_mem node_id size atomic_flag password =
      k.syscall nr_alloc_remote (uint node_id ∷ uint size ∷ flag atomic_flag ∷ int password ∷ [])

  unfoldable pub register_application : ℕ → ℕ → ℕ → Bytes → ℕ → M W ℤ
  register_application destined_port max_size_per_message max_user_per_node name name_len =
      k.syscall nr_register_application (
        uint destined_port
        ∷ uint max_size_per_message
        ∷ uint max_user_per_node
        ∷ buf name
        ∷ uint name_len
        ∷ [])

  -- The first loop of `userspace_liteapi_receive_message_fast`, which gives up after `left` reads.
  unfoldable pub check : ℕ → ℕ → W → W
  check descriptor zero w = w
  check descriptor (suc left) w =
      let rest = check descriptor left (k.elapse w) in
      if k.load_word descriptor w == 0 then rest else w

  -- The second loop, with `usleep`. `none` means that it still waits after `fuel` reads.
  unfoldable pub sleep : ℕ → ℕ → W → Option W
  sleep descriptor zero w = none
  sleep descriptor (suc fuel) w =
      let rest = sleep descriptor fuel (k.elapse w) in
      if k.load_word descriptor w == 0 then rest else some w

  -- The part that follows the loops. `ret` is the result of the system call.
  unfoldable pub take_message : ℕ → ℕ → ℤ → M W ℤ
  take_message descriptor ret_length ret w =
      let w' =
        if k.load_word descriptor w == imm_send_only_flag then k.store_word descriptor 0 w else w in
      if is_neg ret then (k.load_int ret_length w', w') else (ret, w')

  unfoldable pub receive_message_fast : ℕ → ℕ → ℕ → ℤ → ℕ → ℕ → ℤ → W → Option (ℤ × W)
  unfolding size_and_port
  receive_message_fast fuel port ret_addr receive_size descriptor ret_length block_call w =
      let called =
        k.syscall nr_receive_message
          (uint (size_and_port receive_size port)
            ∷ ptr ret_addr
            ∷ ptr descriptor
            ∷ ptr ret_length
            ∷ int block_call
            ∷ uint null_priority
            ∷ [])
          (k.store_word descriptor 0 w) in
      elim (sleep descriptor fuel (check descriptor check_length called.1)) [
        | none ↦ none
        | some w' ↦ some (take_message descriptor ret_length called.0 w')
      ]

  -- The loop of `userspace_liteapi_send_reply_imm_fast`.
  unfoldable pub poll_reply : ℕ → ℕ → W → Option W
  poll_reply ret_length zero w = none
  poll_reply ret_length (suc fuel) w =
      let rest = poll_reply ret_length fuel (k.elapse w) in
      if eq_ℤ (k.load_int ret_length w) send_reply_wait then rest else some w

  unfoldable pub send_reply_imm_fast : ℕ → ℤ → ℕ → ℕ → ℤ → ℕ → ℕ → ℤ → W → Option (ℤ × W)
  unfolding size_and_port size_and_priority
  send_reply_imm_fast fuel target_node port addr size ret_addr ret_length max_ret_size w =
      if too_big size || too_big max_ret_size
      then some (minus_one, w)
      else (let called =
            k.syscall nr_send_reply_imm
              (int target_node
                ∷ uint (size_and_port size port)
                ∷ ptr addr
                ∷ ptr ret_addr
                ∷ ptr ret_length
                ∷ int (size_and_priority max_ret_size null_priority)
                ∷ [])
              w in
          elim (poll_reply ret_length fuel called.1) [
            | none ↦ none
            | some w' ↦ some (k.load_int ret_length w', w')
          ])

  -- `userspace_liteapi_reply_message` and its two variants, by their priority.
  unfoldable pub reply_message_at : ℕ → ℕ → ℤ → ℕ → M W ℤ
  reply_message_at priority addr size descriptor w =
      if too_big size
      then (minus_one, w)
      else k.syscall nr_reply_message (ptr addr ∷ int size ∷ uint descriptor ∷ uint priority ∷ []) w

  abbrev pub reply_message : ℕ → ℤ → ℕ → M W ℤ
  reply_message = reply_message_at null_priority

  abbrev pub reply_message_high : ℕ → ℤ → ℕ → M W ℤ
  reply_message_high = reply_message_at high_priority

  abbrev pub reply_message_low : ℕ → ℤ → ℕ → M W ℤ
  reply_message_low = reply_message_at low_priority

  unfoldable pub query_port : ℤ → ℤ → M W ℤ
  query_port target_node designed_port =
      k.syscall nr_query_port (int target_node ∷ int designed_port ∷ int (pos 0) ∷ [])

  unfoldable pub get_node_id : M W ℤ
  get_node_id = k.syscall nr_get_node_id []

  unfoldable pub get_total_node : M W ℤ
  get_total_node = k.syscall nr_get_total_node []

  -- `userspace_liteapi_rdma_write` and `..._rdma_read` with their variants, by their priority.
  unfoldable pub rdma_write_at : ℕ → ℕ → ℕ → ℕ → ℕ → ℤ → M W ℤ
  rdma_write_at priority lite_handler local_addr size offset password = k.syscall nr_rdma_synwrite (
      uint lite_handler
      ∷ ptr local_addr
      ∷ uint size
      ∷ uint priority
      ∷ uint offset
      ∷ int password
      ∷ [])

  abbrev pub rdma_write : ℕ → ℕ → ℕ → ℕ → ℤ → M W ℤ
  rdma_write = rdma_write_at null_priority

  unfoldable pub rdma_read_at : ℕ → ℕ → ℕ → ℕ → ℕ → ℤ → M W ℤ
  rdma_read_at priority lite_handler local_addr size offset password = k.syscall nr_rdma_read (
      uint lite_handler
      ∷ ptr local_addr
      ∷ uint size
      ∷ uint priority
      ∷ uint offset
      ∷ int password
      ∷ [])

  abbrev pub rdma_read : ℕ → ℕ → ℕ → ℕ → ℤ → M W ℤ
  rdma_read = rdma_read_at null_priority
