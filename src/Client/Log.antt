-- ===== src/Client/Log.antt =====
-- What an application that is connected sends, for the programs in client/: each call of
-- client/lib/lite-lib.c sends its one request (client/lib/rpc.c).
pub mod Recorder
use freelite.Base.{
  ℕ, ℤ, minus_one, is_neg, Bytes, Bool, false, List, [], ◌∷◌, ◌++◌, ◌≡◌, ◌≢◌, sym, arith,
}
use mathlib.Core.Path.{refl, ap, ◌∙◌}
use mathlib.Core.List.{append-nil, append_assoc}
use freelite.Rpc.{RpcReqMsg, RpcRspMsg}
use freelite.Shm.{SharedMemory}
use freelite.Client.{Client, ClientOs, rpc_handler, exchange}
use freelite.Client.Calls.{response, int_call, map_local}

-- `log` has what the world has been asked for, with `act req` for a request that it has been sent. The
-- socket takes every request and gives a response to it, and the shared memory sends none.
pub record Logs {W : Type 0} {A : Type 0} (os : ClientOs W) (shm : SharedMemory W)
    (act : RpcReqMsg → A) (log : W → List A) : Type 0 where
  pub send :
      (fd : ℤ) (req : RpcReqMsg) (w : W)
      → let sent = os.net.send fd req w in
        (is_neg sent.0 ≡ false) × (log sent.1 ≡ log w ++ act req ∷ [])
  pub recv :
      (fd : ℤ) (buffer : RpcRspMsg) (w : W)
      → let got = os.net.recv fd buffer w in (is_neg got.0.0 ≡ false) × (log got.1 ≡ log w)
  pub shm_open : (name : Bytes) (create : Bool) (w : W) → log (shm.shm_open name create w).1 ≡ log w
  pub mmap : (size : ℕ) (fd : ℤ) (w : W) → log (shm.mmap size fd w).1 ≡ log w

-- The client has the same socket, and the log has grown by these.
pub record Sent {W : Type 0} {A : Type 0} (log : W → List A) (reqs : List A) (s s' : Client W)
    : Type 0 where
  pub same : s'.client_sock ≡ s.client_sock
  pub added : log s'.world ≡ log s.world ++ reqs

module _ {W : Type 0} (os : ClientOs W) (junk : RpcRspMsg) (shm : SharedMemory W) {A : Type 0}
    {act : RpcReqMsg → A} (log : W → List A) (l : Logs os shm act log) where
  pub response-Sent :
      (s : Client W) (req : RpcReqMsg)
      → s.client_sock ≢ minus_one
      → Sent log (act req ∷ []) s (response os junk req s).1
  unfolding response rpc_handler exchange
  response-Sent s req open_ =
      let sent = l.send s.client_sock req s.world in
      let got = l.recv s.client_sock junk (os.net.send s.client_sock req s.world).1 in
      record { same = ground (arith, sent, got); added = ground (arith, sent, got) }

  pub map_local-Sent :
      (name : Bytes) (size local_at local remote : ℕ) (rsp : RpcRspMsg) (s : Client W)
      → Sent log [] s (map_local os junk shm name size local_at local remote rsp s).1
  unfolding map_local
  map_local-Sent name size local_at local remote rsp s =
      let opened = l.shm_open name false s.world in
      let mapped =
        l.mmap size (shm.shm_open name false s.world).0 (shm.shm_open name false s.world).1 in
      let nothing = append-nil (log s.world) in
      record { same = ground arith; added = ground (arith, opened, mapped, nothing) }

  -- The calls that return a number.
  pub int_call-Sent :
      (s : Client W) (req : RpcReqMsg)
      → s.client_sock ≢ minus_one
      → Sent log (act req ∷ []) s (int_call os junk req s).1
  unfolding int_call
  int_call-Sent = response-Sent

pub Sent-trans :
    {W : Type 0} {A : Type 0} {log : W → List A} {reqs reqs' : List A} {s s' s'' : Client W}
    → Sent log reqs s s'
    → Sent log reqs' s' s''
    → Sent log (reqs ++ reqs') s s''
Sent-trans {W} {A} {log} {reqs} {reqs'} {s} a b = record {
  same = b.same ∙ a.same;
  added = b.added ∙ ap (λ xs. xs ++ reqs') a.added ∙ append_assoc (log s.world) reqs reqs';
}

pub Sent-refl : {W : Type 0} {A : Type 0} {log : W → List A} (s : Client W) → Sent log [] s s
Sent-refl {log = log} s = record { same = refl; added = sym (append-nil (log s.world)) }

-- A connected client stays connected.
pub stays_open :
    {W : Type 0} {A : Type 0} {log : W → List A} {reqs : List A} {s s' : Client W}
    → Sent log reqs s s'
    → s.client_sock ≢ minus_one
    → s'.client_sock ≢ minus_one
stays_open a open_ e = open_ (sym a.same ∙ e)
