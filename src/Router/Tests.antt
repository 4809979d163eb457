-- ===== src/Router/Tests.antt =====
-- The theorems about the router's handling of requests at concrete inputs. The world is a number that
-- no call but the kernel's changes.
use freelite.Base.{
  Bytes_discrete, some, none, ◌↔◌, ℕ_discrete, ℕ, suc, pos, minus_one, ℤ_discrete, Bytes, false, [],
  ◌∷◌, ◌≡◌, refl,
}
use freelite.Base.UnorderedMap.{find}
use freelite.Os.{Stream, Sockets}
use freelite.Vcm.{VcmMsg}
use freelite.Routing
use freelite.Routing.{Router, vcm_vid_nid, vcm_handler}
use freelite.Lite.{Kernel, int}
use freelite.Shm.{SharedMemory}
use freelite.Rpc.{RpcReqMsg, RpcRspMsg, zeroed, no_req}
use freelite.Router.{Env, responds, unknown_code}
use freelite.MockRouter.{answer}
use freelite.MockRouter.Agreement.{refuses_the_same}
use freelite.Routing.Caching.{Extends}
use freelite.Router.Dispatch.{dispatch}
use freelite.Router.Server.{server_accept_request}
use freelite.Router.Serving.{server_accept_request-Extends}
use freelite.Router.Translation.{query_port, IsServed, dispatch-IsServed}
use freelite.Router.KernelCalls.{dispatch-kernel_call}
use freelite.Router.NoContainer.{host_dispatch, host_dispatch-agrees}
use freelite.Client.{client_path}
use freelite.Client.Stubs.{query_port_request, alloc_remote_mem_request}

-- A manager that knows no vid.
abbrev knows_none : Stream ℕ VcmMsg VcmMsg
knows_none = record {
  send = λ fd m w. (pos 8, w);
  recv = λ fd m w. ((pos 8, record m { id = minus_one }), w);
  close = λ fd w. w;
}

abbrev kernel : Kernel ℕ
kernel = record {
  syscall = λ nr args w. (pos nr, suc w);
  load_int = λ a w. pos 0;
  load_word = λ a w. 1;
  store_word = λ a x w. w;
  elapse = λ w. w;
}

abbrev shm : SharedMemory ℕ
shm = record {
  shm_open = λ name create w. (pos 6, w);
  ftruncate = λ fd size w. (pos 0, w);
  mmap = λ size fd w. (4096, w);
  munmap = λ addr size w. (pos 0, w);
  shm_unlink = λ name w. (pos 0, w);
}

abbrev env : Env ℕ
env = record {
  vcm = knows_none;
  kernel = kernel;
  shm = shm;
  router_nid = pos 3;
  descriptor_at = 8;
  ret_length_at = 16;
}

-- Vid 2 is on node 4.
abbrev router : Router ℕ
router = record {
  routing = record Routing.init { client_sock = pos 5; vid_nid_map_cache = (pos 2, pos 4) ∷ [] };
  world = 0;
}

abbrev cid : Bytes
cid = 1 ∷ []

dispatch-IsServed_example :
    IsServed
      (query_port (pos 2) (pos 7))
      (dispatch env zeroed 10 cid (query_port_request (pos 2) (pos 7)) router).0
unfolding query_port_request
dispatch-IsServed_example =
    dispatch-IsServed env zeroed 10 cid (query_port (pos 2) (pos 7))
      (query_port_request (pos 2) (pos 7)) router refl

refuses_the_same_example : (answer (pos 14) zeroed ≡ none) ↔ (
    dispatch env zeroed 10 cid (record { func_code = pos 14; msg_body = no_req }) router
    ≡ (unknown_code, router))
refuses_the_same_example =
    refuses_the_same env zeroed 10 cid (record { func_code = pos 14; msg_body = no_req }) router
      zeroed

dispatch-kernel_call_example :
    dispatch env zeroed 10 cid (query_port_request (pos 2) (pos 7)) router
    ≡ (responds (record zeroed { int_rsp = pos 417 }), record router { world = 1 })
unfolding vcm_vid_nid find ℤ_discrete
dispatch-kernel_call_example =
    dispatch-kernel_call env zeroed 10 cid (query_port (pos 2) (pos 7))
      (query_port_request (pos 2) (pos 7)) router 417 (int (pos 4) ∷ int (pos 7) ∷ int (pos 0) ∷ [])
      refl refl

-- A client that asks for memory on the node of vid 7, again and again.
abbrev asking : Stream ℕ RpcRspMsg RpcReqMsg
asking = record {
  send = λ fd m w. (pos 8, suc w);
  recv = λ fd m w. ((pos 8, alloc_remote_mem_request 7 64 false (pos 0)), suc w);
  close = λ fd w. w;
}

abbrev sockets : Sockets ℕ
sockets = record {
  socket = λ w. (pos 9, w);
  inet_pton = λ ip. pos 1;
  connect = λ fd ip w. (pos 0, w);
  getpeername = λ fd w. ((pos 0, client_path (1 ∷ 2 ∷ 3 ∷ 4 ∷ 5 ∷ 6 ∷ []) 42), w);
}

server_accept_request-Extends_example :
    Extends router (server_accept_request env asking (pos 9) sockets 3 10 router).1.router
server_accept_request-Extends_example =
    server_accept_request-Extends env asking (pos 9) sockets 3 10 router

-- A host whose one container has the host's nid as its vid.
abbrev bare : Router ℕ
bare = record {
  routing = record {
    client_sock = pos 5;
    vid_nid_map_cache = (pos 3, pos 3) ∷ [];
    cid_vid_map = ([], pos 3) ∷ [];
  };
  world = 0;
}

bare_joined : find Bytes_discrete [] bare.cid_vid_map ≡ some (pos 3)
unfolding find Bytes_discrete
bare_joined = refl

bare_knows : find ℤ_discrete (pos 3) bare.vid_nid_map_cache ≡ some (pos 3)
unfolding find ℤ_discrete ℕ_discrete
bare_knows = refl

host_dispatch-agrees_example :
    host_dispatch env zeroed 10 (query_port_request (pos 3) (pos 7)) bare
    ≡ dispatch env zeroed 10 [] (query_port_request (pos 3) (pos 7)) bare
unfolding query_port_request
host_dispatch-agrees_example =
    host_dispatch-agrees env zeroed [] bare bare_joined 10 (query_port_request (pos 3) (pos 7))
      bare_knows
