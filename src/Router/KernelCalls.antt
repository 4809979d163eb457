-- ===== src/Router/KernelCalls.antt =====
-- Which system call of the LITE kernel a call of the application becomes, through the stub
-- (client/lib/lite-lib.c), the `switch` (router/test_router.cpp) and the wrapper
-- (router/lib/lite-lib.c).
use freelite.Base.{
  ℕ, ◌^◌, ◌-◌, ℤ, pos, minus_one, to_u32, to_i32, Bytes, Bool, Option, none, some, List, [], ◌∷◌,
  ◌≡◌, refl, arith, take, if◌then◌else◌,
}
use freelite.Routing.{Router, vcm_vid_nid}
use freelite.Lite
use freelite.Lite.{Arg, int, uint, flag, ptr, buf, too_big, null_priority}
use freelite.Rpc.{RpcReqMsg, RpcRspMsg}
use freelite.Router.{Env, responds}
use freelite.Router.Dispatch.{dispatch}
use freelite.Router.Translation.{
  Api, get_node_id, alloc_remote_mem, rdma_write, rdma_read, reply_message, dist_barrier,
  query_port, register_application, request,
}
use freelite.Client.Stubs.{
  alloc_remote_mem_request, rdma_write_request, rdma_read_request, reply_message_request,
  dist_barrier_request, query_port_request, register_application_request,
  send_reply_imm_fast_request,
}

-- The vid that a call names, which the router replaces by a nid.
abbrev pub target : Api → Option ℤ
target (alloc_remote_mem node_id size atomic_flag password) = some (to_i32 node_id)
target (query_port target_node designed_port) = some target_node
target _ = none

-- The number and the arguments of the system call, for the calls that become one without polling.
-- A reply that is too big becomes none.
abbrev pub kernel_call : ℤ → Api → Option (ℕ × List Arg)
kernel_call nid (alloc_remote_mem node_id size atomic_flag password) =
    some (409, uint (to_u32 nid) ∷ uint size ∷ flag atomic_flag ∷ int password ∷ [])
kernel_call nid (rdma_write lite_handler local_addr size offset password) =
    some (
      402,
      uint lite_handler ∷ ptr local_addr ∷ uint size ∷ uint 0 ∷ uint offset ∷ int password ∷ [],
    )
kernel_call nid (rdma_read lite_handler local_addr size offset password) =
    some (
      403,
      uint lite_handler ∷ ptr local_addr ∷ uint size ∷ uint 0 ∷ uint offset ∷ int password ∷ [],
    )
kernel_call nid (reply_message addr size descriptor) =
    if too_big size then none else some (415, ptr addr ∷ int size ∷ uint descriptor ∷ uint 0 ∷ [])
kernel_call nid (register_application destined_port max_size max_user name name_len) = some (
  411,
  uint destined_port
      ∷ uint max_size
      ∷ uint max_user
      ∷ buf (take name_len name)
      ∷ uint name_len
      ∷ [],
)
kernel_call nid (dist_barrier num) = some (406, uint num ∷ [])
kernel_call nid (query_port target_node designed_port) =
    some (417, int nid ∷ int designed_port ∷ int (pos 0) ∷ [])
kernel_call nid _ = none

module _ {W : Type 0} (e : Env W) (rsp : RpcRspMsg) where
  -- The nid for the vid that a call names, if it names one, and the router then.
  abbrev pub locate : Option ℤ → Router W → ℤ × Router W
  locate none s = (minus_one, s)
  locate (some vid) s = vcm_vid_nid e.vcm vid s

  -- A call of `alloc_remote_mem`, `rdma_write`, `rdma_read`, `reply_message`, `dist_barrier`,
  -- `query_port` or `register_application` whose texts fit its request and whose reply is not too
  -- big, so that `kernel_call` lists it, reaches the kernel as one system call with the
  -- application's own arguments, the node's vid replaced by its nid, and the application is sent the
  -- result of the system call.
  pub dispatch-kernel_call :
      (fuel : ℕ) (cid : Bytes) (call : Api) (req : RpcReqMsg) (s : Router W) (nr : ℕ)
      (args : List Arg)
      → request call ≡ some req
      → let located = locate (target call) s in
        kernel_call located.0 call ≡ some (nr, args)
        → let r = e.kernel.syscall nr args located.1.world in
          dispatch e rsp fuel cid req s
          ≡ (responds (record rsp { int_rsp = r.0 }), record located.1 { world = r.1 })
  unfolding dispatch alloc_remote_mem_request rdma_write_request rdma_read_request
      reply_message_request dist_barrier_request query_port_request Lite.alloc_remote_mem
      Lite.rdma_write_at Lite.rdma_read_at Lite.reply_message_at Lite.dist_barrier Lite.query_port
      Lite.register_application register_application_request
  dispatch-kernel_call fuel cid get_node_id req s nr args h k = ground arith
  dispatch-kernel_call fuel cid call req s nr args h k = ground arith

  -- `send_reply_imm_fast`: the buffer that an application sends from is not looked at. The request
  -- has the same effect, whatever its address `addr` is.
  pub addr_is_ignored :
      (fuel : ℕ) (cid : Bytes) (target_node : ℤ) (port addr addr' : ℕ) (size : ℤ)
      (ret_addr ret_length : ℕ) (max_ret_size : ℤ) (s : Router W)
      → let send = λ (a : ℕ).
        send_reply_imm_fast_request target_node port a size ret_addr ret_length max_ret_size in
        dispatch e rsp fuel cid (send addr) s ≡ dispatch e rsp fuel cid (send addr') s
  unfolding dispatch send_reply_imm_fast_request
  addr_is_ignored fuel cid target_node port addr addr' size ret_addr ret_length max_ret_size s =
      refl

  -- A vid for which `vcm_vid_nid` returns -1 is not refused: the kernel is asked for memory on node
  -- 2 ^ 32 - 1, and its result is sent back.
  pub unknown_vid_is_used :
      (fuel : ℕ) (cid : Bytes) (node_id size : ℕ) (atomic_flag : Bool) (password : ℤ) (s : Router W)
      → (vcm_vid_nid e.vcm (to_i32 node_id) s).0 ≡ minus_one
      → let s' = (vcm_vid_nid e.vcm (to_i32 node_id) s).1 in
        let r =
          e.kernel.syscall 409
            (uint (2 ^ 32 - 1) ∷ uint size ∷ flag atomic_flag ∷ int password ∷ [])
            s'.world in
        dispatch e rsp fuel cid (alloc_remote_mem_request node_id size atomic_flag password) s
        ≡ (responds (record rsp { int_rsp = r.0 }), record s' { world = r.1 })
  unfolding dispatch alloc_remote_mem_request Lite.alloc_remote_mem to_u32
  unknown_vid_is_used fuel cid node_id size atomic_flag password s h = rw h
