-- ===== src/Container/Pipe.antt =====
-- A socket for the tests: it answers every request of a client by a run of the router's `switch`.
use freelite.Base.{ℤ, pos, minus_one, Bytes, Option, none, some, refl}
use freelite.Routing.{Router}
use freelite.Rpc.{RpcRspMsg, zeroed}
use freelite.Router.{Env, Outcome, responds}
use freelite.Router.Dispatch.{dispatch}
use freelite.Client.{Client, ClientOs}
use freelite.Container.{Connects}

-- The router with the response that is on its way to the client.
abbrev pub Pipe : Type 0 → Type 0
Pipe V = Router V × Option RpcRspMsg

module _ {V : Type 0} where
  abbrev answer : Outcome × Router V → Pipe V
  answer (responds out, r) = (r, some out)
  answer (_, r) = (r, none)

  abbrev take_response : RpcRspMsg → Router V → Option RpcRspMsg → (ℤ × RpcRspMsg) × Pipe V
  take_response m r none = ((minus_one, m), (r, none))
  take_response m r (some out) = ((pos 8, out), (r, none))

module _ {V : Type 0} (e : Env V) (cid : Bytes) where
  abbrev pub os : ClientOs (Pipe V)
  os = record {
    net = record {
      send = λ fd m w. (pos 8, answer (dispatch e zeroed 10 cid m w.0));
      recv = λ fd m w. take_response m w.0 w.1;
      close = λ fd w. w;
    };
    socket = λ w. (pos 3, w);
    cpuset = λ w. none;
    getpid = 42;
    unlink = λ path w. w;
    bind = λ fd path w. (pos 0, w);
    connect = λ fd path w. (pos 0, w);
  }

  -- A client that is connected to the router.
  abbrev pub client : Router V → Client (Pipe V)
  client r = record { client_sock = pos 3; cid = cid; world = (r, none) }

  pub os-Connects : Connects os (pos 3) e zeroed 10 cid (λ w. w.0)
  os-Connects = record {
    sends = λ req w. refl;
    receives = λ req buffer out w r h. rw h (refl, refl, refl);
  }
