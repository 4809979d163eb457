-- ===== src/Client/Threads.antt =====
-- client/lib/rpc.c, `rpc_handler` in several threads of one application. They share `client_sock`, and
-- nothing makes one wait for another. The socket is connected and no call on it fails; a message
-- arrives whole, and in the order of sending.
pub mod Order
pub mod Exclusive
pub mod Answered
mod Tests
use freelite.Base.{ℕ, List, [], ◌∷◌, ◌++◌, ◌≡◌}
use freelite.Rpc.{RpcReqMsg, RpcRspMsg}
use freelite.Cluster.{update}

-- Where a thread stands, with its buffers.
pub data Pc : Type 0 where
  idle : Pc
  sending : RpcReqMsg → Pc  -- before `send`
  receiving : RpcReqMsg → Pc  -- before `recv`
  returned : RpcReqMsg → RpcRspMsg → Pc  -- with 0

-- A message with the thread that has sent or received it.
abbrev pub By : Type 0 → Type 0
By A = ℕ × A

-- The socket between the application and its router, whose thread has the state `router`; and what
-- has been sent and received, the oldest first.
pub record System (R : Type 0) : Type 0 where
  pub router : R
  pub requests : List RpcReqMsg
  pub responses : List RpcRspMsg
  pub pc : ℕ → Pc
  pub sent : List (By RpcReqMsg)
  pub received : List (By RpcRspMsg)

-- `serve` is a round of the router's thread that answers.
module _ {R : Type 0} (serve : RpcReqMsg → R → RpcRspMsg × R) where
  abbrev pub connected : R → System R
  connected r = record {
    router = r;
    requests = [];
    responses = [];
    pc = λ t. idle;
    sent = [];
    received = [];
  }

  pub data Step (s : System R) : System R → Type 0 where
    call :
        (t : ℕ) (req : RpcReqMsg)
        → s.pc t ≡ idle
        → Step s (record s { pc = update s.pc t (sending req) })
    send :
        (t : ℕ) (req : RpcReqMsg)
        → s.pc t ≡ sending req
        → Step s (record s {
          requests = s.requests ++ req ∷ [];
          pc = update s.pc t (receiving req);
          sent = s.sent ++ (t, req) ∷ [];
        })
    answer :
        (req : RpcReqMsg) (reqs : List RpcReqMsg)
        → s.requests ≡ req ∷ reqs
        → Step s (record s {
          router = (serve req s.router).1;
          requests = reqs;
          responses = s.responses ++ (serve req s.router).0 ∷ [];
        })
    recv :
        (t : ℕ) (req : RpcReqMsg) (rsp : RpcRspMsg) (rsps : List RpcRspMsg)
        → s.pc t ≡ receiving req
        → s.responses ≡ rsp ∷ rsps
        → Step s (record s {
          responses = rsps;
          pc = update s.pc t (returned req rsp);
          received = s.received ++ (t, rsp) ∷ [];
        })
    leave :
        (t : ℕ) (req : RpcReqMsg) (rsp : RpcRspMsg)
        → s.pc t ≡ returned req rsp
        → Step s (record s { pc = update s.pc t idle })

  pub data Reach (r : R) : System R → Type 0 where
    begins : Reach r (connected r)
    later : {s s' : System R} → Reach r s → Step s s' → Reach r s'

  -- The answers to requests that are served one after another, and the router after them.
  unfoldable pub answers : R → List RpcReqMsg → List RpcRspMsg
  answers r [] = []
  answers r (q ∷ qs) = let (m, r') = serve q r in m ∷ answers r' qs

  unfoldable pub after : R → List RpcReqMsg → R
  after r [] = r
  after r (q ∷ qs) = after (serve q r).1 qs
