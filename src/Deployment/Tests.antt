-- ===== src/Deployment/Tests.antt =====
-- The theorem about the whole system at two hosts: an application joins on the first, another one on
-- the second, which then asks for memory by the first one's id.
use freelite.Base.{
  ℕ, ℤ, pos, minus_one, to_i32, ℤ_discrete, Bytes, Bytes_discrete, ℕ_discrete, false, List, [], ◌∷◌,
  some, none, ◌≡◌, ◌≢◌, ◌⊎◌, refl, arith, incr,
}
use freelite.Base.UnorderedMap.{find, insert}
use freelite.Vcm
use freelite.Vcm.{handle, get_new_vid}
use freelite.Routing.{Router, vcm_join, vcm_handler}
use freelite.Rpc.{RpcReqMsg, zeroed, join_code, join_req, no_req}
use freelite.Router.Dispatch.{dispatch}
use freelite.Client.{Client, rpc_handler, exchange}
use freelite.Client.Stubs.{join_request}
use freelite.Client.Calls
use freelite.Client.Calls.{int_call, response}
use freelite.Container.Pipe.{Pipe, os, client, os-Connects}
use freelite.Cluster.{Cluster, router_at, start}
use freelite.Cluster.Wire.{Wire, wire-Delivers, receive}
use freelite.Cluster.Hosts.{host, host-Leaves}
use freelite.Cluster.Requests.{Request, serve_all}
use freelite.Deployment.{Attached, sent_by, joined_is_reached}

abbrev here : Bytes
here = 1 ∷ []

abbrev there : Bytes
there = 2 ∷ []

connected : pos 3 ≢ minus_one
connected e = cc

abbrev app : (i : ℕ) (cid : Bytes) (r : Router Wire) → Attached (Pipe Wire) (host i) r
app i cid r = record {
  os = os (host i) cid;
  junk = zeroed;
  rsp = zeroed;
  fuel = 10;
  cid = cid;
  router_of = λ w. w.0;
  client = client (host i) cid r;
  is_open = connected;
  connects = os-Connects (host i) cid;
  current = refl;
}

abbrev before_all : Cluster Wire
before_all = start (Vcm.init, none) (λ i. pos 4)

abbrev joiner : Attached (Pipe Wire) (host 0) (router_at before_all 0)
joiner = app 0 here (router_at before_all 0)

abbrev joins : RpcReqMsg
joins = record {
  func_code = join_code;
  msg_body = join_req (record { input_str = b'x' ∷ []; eth_port = pos 1; ib_port = pos 2 });
}

abbrev later : List Request
later =
    record {
      router = 1;
      cid = there;
      rsp = zeroed;
      fuel = 0;
      req = record { func_code = join_code; msg_body = no_req };
    }
    ∷ []

fits : join_request (b'x' ∷ []) (pos 1) (pos 2) ≡ some joins
unfolding join_request
fits = refl

-- What is left of the first application's library after its join.
joined : Client (Pipe Wire)
joined = (int_call joiner.os joiner.junk joins joiner.client).1

given :
    Calls.join joiner.os joiner.junk (b'x' ∷ []) (pos 1) (pos 2) joiner.client
    ≡ some (to_i32 1, joined)
unfolding Calls.join Calls.text_call join_request int_call response rpc_handler exchange dispatch
    vcm_join vcm_handler receive handle get_new_vid find insert incr to_i32 Bytes_discrete
    ℤ_discrete ℕ_discrete joined
given = refl

abbrev at_the_end : Cluster Wire
at_the_end = serve_all host before_all (sent_by 0 joiner joins ∷ later)

abbrev asker : Attached (Pipe Wire) (host 1) (router_at at_the_end 1)
asker = app 1 there (router_at at_the_end 1)

joined_is_reached_example :
    (n : ℤ) × ((n ≡ minus_one) ⊎ (n ≡ pos 3))
    × ((Calls.alloc_remote_mem asker.os zeroed 1 64 false (pos 0) asker.client).0 ≡ pos 409)
unfolding serve_all to_i32
joined_is_reached_example =
    joined_is_reached host (λ w. w.0) (λ i. wire-Delivers) host-Leaves (Vcm.init, none) (λ i. pos 4)
      refl [] later 0 1 joiner (b'x' ∷ []) (pos 1) (pos 2) joins joined 1 fits given refl
      (omega arith) asker 64 false (pos 0)
