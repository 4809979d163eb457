-- ===== src/Client/Stubs.antt =====
-- client/lib/lite-lib.c: the functions that an application calls. Each fills in a request, has
-- `rpc_handler` exchange it, and returns `int_rsp` of the response. The local variable `rsp_msg` is
-- not initialised: what it holds is the argument `junk`.
use freelite.Base.{ℕ, ℤ, Bytes, Bool, Option, none, some, length, take, ltb, leb, if◌then◌else◌}
use freelite.Rpc.{
  RpcReqMsg, no_req, join_req, alloc_remote_mem_req, rdma_write_req, rdma_read_req,
  send_reply_imm_fast_req, receive_message_fast_req, reply_message_req, register_application_req,
  dist_barrier_req, query_port_req, alloc_local_mem_req, free_local_mem_req, get_node_id_code,
  join_code, alloc_remote_mem_code, rdma_write_code, rdma_read_code, send_reply_imm_fast_code,
  receive_message_fast_code, reply_message_code, register_application_code, dist_barrier_code,
  query_port_code, alloc_local_mem_code, free_local_mem_code,
}

-- A copy of `s` into a zeroed array of `size` bytes that is read as a text, with room for the NUL.
-- `none` is a copy that leaves the array, or leaves the text without an end.
abbrev pub copy_text : ℕ → Bytes → Option Bytes
copy_text size s = if ltb (length s) size then some s else none

-- A copy that is only held to stay inside the array. It writes `n` bytes, whatever the text.
abbrev pub copy_bytes : ℕ → ℕ → Bytes → Option Bytes
copy_bytes size n s = if leb n size then some (take n s) else none

-- The requests.
unfoldable pub get_node_id_request : RpcReqMsg
get_node_id_request = record { func_code = get_node_id_code; msg_body = no_req }

unfoldable pub join_request : Bytes → ℤ → ℤ → Option RpcReqMsg
join_request input_str eth_port ib_port = elim (copy_bytes 16 (length input_str) input_str) [
  | none ↦ none
  | some text ↦ some (record {
    func_code = join_code;
    msg_body = join_req (record { input_str = text; eth_port = eth_port; ib_port = ib_port });
  })
]

unfoldable pub alloc_remote_mem_request : ℕ → ℕ → Bool → ℤ → RpcReqMsg
alloc_remote_mem_request node_id size atomic_flag password = record {
  func_code = alloc_remote_mem_code;
  msg_body =
      alloc_remote_mem_req
        (record { node_id = node_id; size = size; atomic_flag = atomic_flag; password = password });
}

unfoldable pub rdma_write_request : ℕ → ℕ → ℕ → ℕ → ℤ → RpcReqMsg
rdma_write_request lite_handler local_addr size offset password = record {
  func_code = rdma_write_code;
  msg_body = rdma_write_req (record {
    lite_handler = lite_handler;
    local_addr = local_addr;
    size = size;
    offset = offset;
    password = password;
  });
}

unfoldable pub rdma_read_request : ℕ → ℕ → ℕ → ℕ → ℤ → RpcReqMsg
rdma_read_request lite_handler local_addr size offset password = record {
  func_code = rdma_read_code;
  msg_body = rdma_read_req (record {
    lite_handler = lite_handler;
    local_addr = local_addr;
    size = size;
    offset = offset;
    password = password;
  });
}

unfoldable pub send_reply_imm_fast_request : ℤ → ℕ → ℕ → ℤ → ℕ → ℕ → ℤ → RpcReqMsg
send_reply_imm_fast_request target_node port addr size ret_addr ret_length max_ret_size = record {
  func_code = send_reply_imm_fast_code;
  msg_body = send_reply_imm_fast_req (record {
    target_node = target_node;
    port = port;
    addr = addr;
    size = size;
    ret_addr = ret_addr;
    ret_length = ret_length;
    max_ret_size = max_ret_size;
  });
}

unfoldable pub receive_message_fast_request : ℕ → ℕ → ℤ → ℤ → RpcReqMsg
receive_message_fast_request port ret_addr receive_size block_call = record {
  func_code = receive_message_fast_code;
  msg_body = receive_message_fast_req (record {
    port = port;
    ret_addr = ret_addr;
    receive_size = receive_size;
    block_call = block_call;
  });
}

unfoldable pub reply_message_request : ℕ → ℤ → ℕ → RpcReqMsg
reply_message_request addr size descriptor = record {
  func_code = reply_message_code;
  msg_body = reply_message_req (record { addr = addr; size = size; descriptor = descriptor });
}

unfoldable pub register_application_request : ℕ → ℕ → ℕ → Bytes → ℕ → Option RpcReqMsg
register_application_request destined_port max_size_per_message max_user_per_node name name_len =
    elim (copy_bytes 32 name_len name) [
      | none ↦ none
      | some copied ↦ some (record {
        func_code = register_application_code;
        msg_body = register_application_req (record {
          destined_port = destined_port;
          max_size_per_message = max_size_per_message;
          max_user_per_node = max_user_per_node;
          name = copied;
          name_len = name_len;
        });
      })
    ]

unfoldable pub dist_barrier_request : ℕ → RpcReqMsg
dist_barrier_request num = record {
  func_code = dist_barrier_code;
  msg_body = dist_barrier_req (record { num = num });
}

unfoldable pub query_port_request : ℤ → ℤ → RpcReqMsg
query_port_request target_node designed_port = record {
  func_code = query_port_code;
  msg_body = query_port_req (record { target_node = target_node; designed_port = designed_port });
}

unfoldable pub alloc_local_mem_request : Bytes → ℕ → Option RpcReqMsg
alloc_local_mem_request name size = elim (copy_text 256 name) [
  | none ↦ none
  | some text ↦ some (record {
    func_code = alloc_local_mem_code;
    msg_body = alloc_local_mem_req (record { name = text; size = size });
  })
]

unfoldable pub free_local_mem_request : Bytes → ℕ → ℕ → Option RpcReqMsg
free_local_mem_request name size remote = elim (copy_text 256 name) [
  | none ↦ none
  | some text ↦ some (record {
    func_code = free_local_mem_code;
    msg_body = free_local_mem_req (record { name = text; size = size; remote_addr = remote });
  })
]
