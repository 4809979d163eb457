-- ===== src/Container/Tests.antt =====
-- The theorems about an application and its router at concrete calls.
use freelite.Base.{some, ℕ, suc, pos, minus_one, ℤ_discrete, Bytes, [], ◌∷◌, ◌≡◌, refl}
use freelite.Base.UnorderedMap.{find}
use freelite.Routing
use freelite.Routing.{Router, vcm_vid_nid, vcm_join}
use freelite.Lite.{int}
use freelite.Rpc.{RpcReqMsg, alloc_local_mem_code, alloc_local_mem_req, zeroed}
use freelite.Router.{Env}
use freelite.Router.Translation.{query_port}
use freelite.Client.Stubs.{query_port_request, alloc_local_mem_request}
use freelite.Client.Calls.{int_call, response, alloc_local_mem}
use freelite.Shm.{SharedMemory, alloc_shm_mem, map_shm}
use freelite.Container.{application_call}
use freelite.Client.{Client}
use freelite.TestJoin.{test_join, test_join-agrees}
use freelite.Container.LocalMemory.{alloc_local_mem-shared}
use freelite.Container.Pipe.{Pipe, os, client, os-Connects}

-- The system calls answer with their number and are counted; the manager knows no vid.
abbrev env : Env ℕ
env = record {
  vcm = record {
    send = λ fd m w. (pos 8, w);
    recv = λ fd m w. ((pos 8, record m { id = minus_one }), w);
    close = λ fd w. w;
  };
  kernel = record {
    syscall = λ nr args w. (pos nr, suc w);
    load_int = λ a w. pos 0;
    load_word = λ a w. 1;
    store_word = λ a x w. w;
    elapse = λ w. w;
  };
  shm = record {
    shm_open = λ name create w. (pos 6, w);
    ftruncate = λ fd size w. (pos 0, w);
    mmap = λ size fd w. (4096, w);
    munmap = λ addr size w. (pos 0, w);
    shm_unlink = λ name w. (pos 0, w);
  };
  router_nid = pos 3;
  descriptor_at = 8;
  ret_length_at = 16;
}

-- Vid 2 is on node 4.
abbrev router : Router ℕ
router = record {
  routing = record Routing.init { client_sock = pos 5; vid_nid_map_cache = (pos 2, pos 4) ∷ [] };
  world = 0;
}

abbrev cid : Bytes
cid = 1 ∷ []

application_call_example :
    let done =
      int_call (os env cid) zeroed (query_port_request (pos 2) (pos 7)) (client env cid router) in
    (done.0 ≡ pos 417) × (done.1.world.0 ≡ record router { world = 1 })
unfolding vcm_vid_nid find ℤ_discrete
application_call_example =
    application_call (os env cid) env zeroed zeroed 10 cid (λ w. w.0) (client env cid router)
      (query_port (pos 2) (pos 7)) (query_port_request (pos 2) (pos 7)) 417
      (int (pos 4) ∷ int (pos 7) ∷ int (pos 0) ∷ []) (λ e. cc) (os-Connects env cid) refl refl

-- The client's side of shared memory, mapped at 8192.
abbrev client_shm : SharedMemory (Pipe ℕ)
client_shm = record {
  shm_open = λ name create w. (pos 7, w);
  ftruncate = λ fd size w. (pos 0, w);
  mmap = λ size fd w. (8192, w);
  munmap = λ addr size w. (pos 0, w);
  shm_unlink = λ name w. (pos 0, w);
}

abbrev name : Bytes
name = b'm' ∷ []

abbrev alloc_request : RpcReqMsg
alloc_request = record {
  func_code = alloc_local_mem_code;
  msg_body = alloc_local_mem_req (record { name = name; size = 64 });
}

alloc_local_mem-shared_example :
    let after = (response (os env cid) zeroed alloc_request (client env cid router)).1 in
    (alloc_local_mem (os env cid) zeroed client_shm name 64 800 0 0 (client env cid router)
      ≡ some ((pos 0, 8192, 4096), after))
    × (after.world.0 ≡ router)
unfolding alloc_local_mem_request alloc_shm_mem map_shm
alloc_local_mem-shared_example =
    alloc_local_mem-shared env zeroed 10 cid (os env cid) zeroed (λ w. w.0) client_shm name 64 800 0
      0 alloc_request (client env cid router) (λ e. cc) (os-Connects env cid) refl refl refl refl
      refl refl

test_join-agrees_example :
    let v = (vcm_join env.vcm env.router_nid cid router).0 in
    (s' : Client (Pipe ℕ)) × (test_join (os env cid) zeroed (client env cid router)
      ≡ some ((v, v), s'))
test_join-agrees_example =
    test_join-agrees (os env cid) env zeroed zeroed 10 cid (λ w. w.0) (client env cid router)
      (λ e. cc) (os-Connects env cid)
