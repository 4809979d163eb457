-- ===== src/Rpc.antt =====
-- inc/rpc_types.h and inc/func_code.h: the messages between a client and its router. Pointers are
-- addresses of the router's process, and a `char` array is the bytes that were written to it.
use freelite.Base.{ℕ, ℤ, pos, Bytes, Bool}

-- func_code.h
abbrev pub get_node_id_code : ℤ
get_node_id_code = pos 1

abbrev pub join_code : ℤ
join_code = pos 2

abbrev pub alloc_remote_mem_code : ℤ
alloc_remote_mem_code = pos 3

abbrev pub rdma_write_code : ℤ
rdma_write_code = pos 4

abbrev pub rdma_read_code : ℤ
rdma_read_code = pos 5

abbrev pub send_reply_imm_fast_code : ℤ
send_reply_imm_fast_code = pos 6

abbrev pub receive_message_fast_code : ℤ
receive_message_fast_code = pos 7

abbrev pub reply_message_code : ℤ
reply_message_code = pos 8

abbrev pub register_application_code : ℤ
register_application_code = pos 9

abbrev pub dist_barrier_code : ℤ
dist_barrier_code = pos 10

abbrev pub query_port_code : ℤ
query_port_code = pos 11

abbrev pub alloc_local_mem_code : ℤ
alloc_local_mem_code = pos 12

abbrev pub free_local_mem_code : ℤ
free_local_mem_code = pos 13

pub record JoinReqMsg : Type 0 where
  pub input_str : Bytes
  pub eth_port : ℤ
  pub ib_port : ℤ

pub record AllocRemoteMemReqMsg : Type 0 where
  pub node_id : ℕ
  pub size : ℕ
  pub atomic_flag : Bool
  pub password : ℤ

-- Also `rdma_read_req_msg`, which is a macro for this name.
pub record RdmaWriteReqMsg : Type 0 where
  pub lite_handler : ℕ
  pub local_addr : ℕ
  pub size : ℕ
  pub offset : ℕ
  pub password : ℤ

pub record SendReplyImmFastReqMsg : Type 0 where
  pub target_node : ℤ
  pub port : ℕ
  pub addr : ℕ
  pub size : ℤ
  pub ret_addr : ℕ
  pub ret_length : ℕ
  pub max_ret_size : ℤ

pub record ReceiveMessageFastReqMsg : Type 0 where
  pub port : ℕ
  pub ret_addr : ℕ
  pub receive_size : ℤ
  pub block_call : ℤ

pub record ReplyMessageReqMsg : Type 0 where
  pub addr : ℕ
  pub size : ℤ
  pub descriptor : ℕ

pub record RegisterApplicationReqMsg : Type 0 where
  pub destined_port : ℕ
  pub max_size_per_message : ℕ
  pub max_user_per_node : ℕ
  pub name : Bytes
  pub name_len : ℕ

pub record DistBarrierReqMsg : Type 0 where
  pub num : ℕ

pub record QueryPortReqMsg : Type 0 where
  pub target_node : ℤ
  pub designed_port : ℤ

pub record AllocLocalMemReqMsg : Type 0 where
  pub name : Bytes
  pub size : ℕ

pub record FreeLocalMemReqMsg : Type 0 where
  pub name : Bytes
  pub size : ℕ
  pub remote_addr : ℕ

-- The union of a request: the member that was written, if any was.
pub data ReqBody : Type 0 where
  no_req : ReqBody
  join_req : JoinReqMsg → ReqBody
  alloc_remote_mem_req : AllocRemoteMemReqMsg → ReqBody
  rdma_write_req : RdmaWriteReqMsg → ReqBody
  rdma_read_req : RdmaWriteReqMsg → ReqBody
  send_reply_imm_fast_req : SendReplyImmFastReqMsg → ReqBody
  receive_message_fast_req : ReceiveMessageFastReqMsg → ReqBody
  reply_message_req : ReplyMessageReqMsg → ReqBody
  register_application_req : RegisterApplicationReqMsg → ReqBody
  dist_barrier_req : DistBarrierReqMsg → ReqBody
  query_port_req : QueryPortReqMsg → ReqBody
  alloc_local_mem_req : AllocLocalMemReqMsg → ReqBody
  free_local_mem_req : FreeLocalMemReqMsg → ReqBody

-- `struct rpc_req_msg`
pub record RpcReqMsg : Type 0 where
  pub func_code : ℤ
  pub msg_body : ReqBody

-- The union of a response. Its two members share their first eight bytes, an address in one and the
-- descriptor in the other; only the second goes on, with `ret_length`.
pub record RspBody : Type 0 where
  pub descriptor : ℕ
  pub ret_length : ℤ

abbrev pub remote_addr : RspBody → ℕ
remote_addr b = b.descriptor

-- `struct rpc_rsp_msg`
pub record RpcRspMsg : Type 0 where
  pub int_rsp : ℤ
  pub msg_body : RspBody

-- `memset(&rsp_msg, 0, sizeof(struct rpc_rsp_msg))`
abbrev pub zeroed : RpcRspMsg
zeroed = record { int_rsp = pos 0; msg_body = record { descriptor = 0; ret_length = pos 0 } }
