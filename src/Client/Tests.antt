-- ===== src/Client/Tests.antt =====
-- The theorems about the client at concrete inputs. The world of these operating systems is the
-- number of calls so far.
use freelite.Base.{inr, ℕ, suc, pos, minus_one, Bytes, none, take, [], ◌∷◌, ◌≡◌, ◌↔◌, refl}
use freelite.Os.{Stream}
use freelite.Rpc.{RpcReqMsg, RpcRspMsg, zeroed}
use freelite.Shm.{SharedMemory, map_failed}
use freelite.Router.{cid_of_path}
use freelite.Client.{
  Client, ClientOs, client_path, exchange, rpc_handler, print_pid, decimal, zeros,
}
use freelite.Client.Stubs.{get_node_id_request}
use freelite.Client.Calls.{int_call, response}
use freelite.Client.Identity.{same_cid_iff}
use freelite.Client.Failures.{no_answer_is_junk}

-- A router that answers 5 and gives the address 4096; one that is gone.
abbrev answering : Stream ℕ RpcReqMsg RpcRspMsg
answering = record {
  send = λ fd m w. (pos 8, suc w);
  recv = λ fd m w. (
    (
      pos 8,
      record { int_rsp = pos 5; msg_body = record { descriptor = 4096; ret_length = pos 0 } },
    ),
    w,
  );
  close = λ fd w. w;
}

abbrev gone : Stream ℕ RpcReqMsg RpcRspMsg
gone = record {
  send = λ fd m w. (minus_one, w);
  recv = λ fd m w. ((minus_one, m), w);
  close = λ fd w. w;
}

-- A router that reads requests and has hung up its side.
abbrev hung_up : Stream ℕ RpcReqMsg RpcRspMsg
hung_up = record {
  send = λ fd m w. (pos 8, w);
  recv = λ fd m w. ((pos 0, m), w);
  close = λ fd w. w;
}

abbrev os_with : Stream ℕ RpcReqMsg RpcRspMsg → ClientOs ℕ
os_with net = record {
  net = net;
  socket = λ w. (pos 3, suc w);
  cpuset = λ w. none;
  getpid = 42;
  unlink = λ path w. w;
  bind = λ fd path w. (pos 0, w);
  connect = λ fd path w. (pos 0, w);
}

-- Memory of which the client's own mapping fails.
abbrev full : SharedMemory ℕ
full = record {
  shm_open = λ name create w. (pos 6, w);
  ftruncate = λ fd size w. (pos 0, w);
  mmap = λ size fd w. (map_failed, w);
  munmap = λ addr size w. (pos 0, w);
  shm_unlink = λ name w. (pos 0, w);
}

abbrev fresh : Client ℕ
fresh = record { client_sock = minus_one; cid = []; world = 0 }

abbrev connected : Client ℕ
connected = record fresh { client_sock = pos 3 }

-- What an uninitialised response may hold.
abbrev garbage : RpcRspMsg
garbage = record zeroed { int_rsp = pos 77 }

abbrev cid_a : Bytes
cid_a = b'a' ∷ b'b' ∷ b'c' ∷ b'd' ∷ b'e' ∷ b'0' ∷ []

abbrev cid_b : Bytes
cid_b = b'a' ∷ b'b' ∷ b'c' ∷ b'd' ∷ b'e' ∷ b'1' ∷ []

pid_is_padded : print_pid 42 ≡ b'0' ∷ b'0' ∷ b'0' ∷ b'4' ∷ b'2' ∷ []
unfolding print_pid decimal zeros
pid_is_padded = refl

same_cid_iff_example :
    (cid_of_path (client_path cid_a 42) ≡ cid_of_path (client_path cid_b 43))
    ↔ (take 5 cid_a ≡ take 5 cid_b)
same_cid_iff_example = same_cid_iff cid_a cid_b 42 43 refl refl

unsent : (int_call (os_with gone) garbage get_node_id_request connected).0 ≡ pos 77
unfolding int_call response rpc_handler exchange
unsent = refl

no_answer_is_junk_example :
    (int_call (os_with hung_up) garbage get_node_id_request connected).0 ≡ pos 77
no_answer_is_junk_example =
    no_answer_is_junk (os_with hung_up) garbage get_node_id_request connected (λ e. cc)
      (inr (λ m w. refl))
