-- ===== src/Router.antt =====
-- router/test_router.cpp: the router's handling of a request from a client, in the container build
-- (without NO_CONTAINER).
pub mod Dispatch
pub mod Translation
pub mod KernelCalls
pub mod Effects
pub mod NoContainer
pub mod Rule
pub mod Server
pub mod Serving
mod Tests
use freelite.Base.{ℕ, ℤ, Bytes, Option, none, some, length, take, drop, ltb, if◌then◌else◌}
use freelite.Base.State.{M}
use freelite.Os.{Stream}
use freelite.Vcm.{VcmMsg}
use freelite.Routing.{Router}
use freelite.Lite.{Kernel}
use freelite.Shm.{SharedMemory}
use freelite.Rpc.{RpcRspMsg}

-- What a thread of the router works with: the network to the manager, the kernel, the shared memory,
-- the router's nid, and the addresses of the fields `descriptor` and `ret_length` of its `rsp_msg`.
pub record Env (W : Type 0) : Type 0 where
  pub vcm : Stream W VcmMsg VcmMsg
  pub kernel : Kernel W
  pub shm : SharedMemory W
  pub router_nid : ℤ
  pub descriptor_at : ℕ
  pub ret_length_at : ℕ

-- How the `switch` ends: with the response that is sent; at a function code that it does not know;
-- by reading a member of the union that was not written, which the language leaves undefined; or
-- it still waits for the kernel when the fuel is used up.
pub data Outcome : Type 0 where
  responds : RpcRspMsg → Outcome
  unknown_code : Outcome
  undefined : Outcome
  waits : Outcome

-- A call of the kernel or of the shared memory, in the state of the router.
abbrev pub on_world : {W A : Type 0} → M W A → M (Router W) A
on_world m s = let r = m s.world in (r.0, record s { world = r.1 })

-- `rsp_msg.rval.int_rsp = …`
abbrev pub with_int : RpcRspMsg → ℤ → RpcRspMsg
with_int rsp n = record rsp { int_rsp = n }

abbrev pub respond_int : {W : Type 0} → RpcRspMsg → ℤ × Router W → Outcome × Router W
respond_int rsp r = (responds (with_int rsp r.0), r.1)

-- `client_path.substr(8, 6)`. `none` is the exception `std::out_of_range`, which nothing catches.
unfoldable pub cid_of_path : Bytes → Option Bytes
cid_of_path path = if ltb (length path) 8 then none else some (take 6 (drop 8 path))
