-- ===== src/TestRpc.antt =====
-- client/test_rpc.c: the benchmark of remote calls.
pub mod Options
pub mod Threads
pub mod Ring
pub mod Sync
mod Tests
use freelite.Base.{ℕ, ◌*◌, ℤ, pos, negsuc, ltb_ℤ, not, ◌||◌, if◌then◌else◌}
use freelite.Base.State.{M}
use freelite.Rpc.{RpcRspMsg}
use freelite.Client.{Client, ClientOs}
use freelite.Client.Calls

-- MAX_BUF_SIZE
abbrev pub max_buf_size : ℤ
max_buf_size = pos (1024 * 1024 * 4)

-- -EINVAL
abbrev pub einval : ℤ
einval = negsuc 21

module _ {W : Type 0} (os : ClientOs W) (junk : RpcRspMsg) where
  -- The result of the call is looked at for a message only.
  unfoldable pub async_rpc : ℤ → ℕ → ℕ → ℤ → ℕ → ℕ → ℤ → M (Client W) ℤ
  async_rpc dst_nid dst_port buf buf_size ret_buf ret_size_ptr max_ret_size s =
      if not (ltb_ℤ buf_size max_buf_size) || not (ltb_ℤ max_ret_size max_buf_size)
      then (einval, s)
      else (
        pos 0,
        (Calls.send_reply_imm_fast os junk dst_nid dst_port buf buf_size ret_buf ret_size_ptr
            max_ret_size s).1,
      )
