-- ===== src/MockRouter/Tests.antt =====
-- The theorems about client/test_server.c with a socket that holds two lists.
use freelite.Base.{ℤ, eq_ℤ, false, pos, is_neg, List, [], ◌∷◌, ◌++◌, ◌≡◌, refl, arith}
use freelite.Os.{Stream, Sockets}
use freelite.Rpc.{RpcReqMsg, RpcRspMsg, zeroed, no_req, join_code, receive_message_fast_code}
use freelite.Router.Server.{exited}
use freelite.MockRouter.{server_accept_request}
use freelite.MockRouter.Replies.{Delivers, replies, server_accept_request-replies}

-- The requests that wait, and the responses that have arrived.
abbrev Queues : Type 0
Queues = List RpcReqMsg × List RpcRspMsg

abbrev receive : RpcReqMsg → Queues → (ℤ × RpcReqMsg) × Queues
receive buffer ([], rsps) = ((pos 0, buffer), ([], rsps))
receive buffer (req ∷ reqs, rsps) = ((pos 1, req), (reqs, rsps))

abbrev net : Stream Queues RpcRspMsg RpcReqMsg
net = record {
  send = λ fd rsp w. (pos 1, (w.0, w.1 ++ rsp ∷ []));
  recv = λ fd buffer w. receive buffer w;
  close = λ fd w. w;
}

abbrev socks : Sockets Queues
socks = record {
  socket = λ w. (pos 3, w);
  inet_pton = λ s. pos 1;
  connect = λ fd s w. (pos 0, w);
  getpeername = λ fd w. ((pos 0, []), w);
}

receive-next :
    (buffer req : RpcReqMsg) (rest : List RpcReqMsg) (w : Queues)
    → w.0 ≡ req ∷ rest
    → let got = receive buffer w in
      (is_neg got.0.0 ≡ false)
      × (eq_ℤ got.0.0 (pos 0) ≡ false)
      × (got.0.1 ≡ req)
      × (got.1.0 ≡ rest)
      × (got.1.1 ≡ w.1)
receive-next buffer req rest ([], rsps) e = cc
receive-next buffer req rest (r ∷ rs, rsps) e = (refl, refl, cc, cc, refl)

receive-end :
    (buffer : RpcReqMsg) (w : Queues)
    → w.0 ≡ []
    → ((receive buffer w).0.0 ≡ pos 0) × ((receive buffer w).1.1 ≡ w.1)
receive-end buffer ([], rsps) e = (refl, refl)
receive-end buffer (r ∷ rs, rsps) e = cc

net-Delivers : Delivers net (pos 4) (λ w. w.0) (λ w. w.1)
net-Delivers = record {
  next = receive-next;
  end_ = receive-end;
  sends = λ rsp w. (refl, refl, refl);
  closes = λ w. refl;
}

abbrev request_of : ℤ → RpcReqMsg
request_of code = record { func_code = code; msg_body = no_req }

-- The third request is refused, and the fourth is not read.
abbrev waiting : Queues
waiting = (
  request_of join_code
      ∷ request_of receive_message_fast_code
      ∷ request_of (pos 14)
      ∷ request_of join_code
      ∷ [],
  [],
)

server_accept_request-replies_example :
    ((server_accept_request net (pos 4) socks 5 waiting).0 ≡ exited)
    × ((server_accept_request net (pos 4) socks 5 waiting).1.world.1 ≡ replies zeroed waiting.0)
server_accept_request-replies_example =
    server_accept_request-replies net (pos 4) (λ w. w.0) (λ w. w.1) net-Delivers socks 5 waiting
      refl (omega arith)
