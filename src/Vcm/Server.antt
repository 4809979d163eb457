-- ===== src/Vcm/Server.antt =====
-- vcm/vcm.cpp, `server_accept_request`: the thread that serves one connection. A round of its loop
-- is one function; the loop runs on a number of rounds, since only the peer can end it.
use freelite.Base.{ℕ, zero, suc, ℤ, pos, is_neg, eq_ℤ, none, some, if◌then◌else◌}
use freelite.Os.{Stream, Sockets}
use freelite.Vcm.{Vcm, VcmMsg, handle}

-- What the thread works on: the shared registry, the world, and its buffer `msg`.
pub record Session (W : Type 0) : Type 0 where
  pub vcm : Vcm
  pub world : W
  pub msg : VcmMsg

pub data Status : Type 0 where
  running exited : Status

module _ {W : Type 0} (net : Stream W VcmMsg VcmMsg) (client_sock : ℤ) where
  -- `close(client_sock); pthread_exit(NULL);`
  abbrev pub hang_up : Session W → Status × Session W
  hang_up s = (exited, record s { world = net.close client_sock s.world })

  unfoldable pub reply : Session W → Status × Session W
  reply s =
      let sent = net.send client_sock s.msg s.world in
      if is_neg sent.0
      then hang_up (record s { world = sent.1 })
      else (running, record s { world = sent.1 })

  -- The `switch` and what follows it.
  unfoldable pub respond : Session W → Status × Session W
  unfolding reply
  respond s = elim (handle s.msg s.vcm) [
    | none ↦ hang_up s
    | some (msg, vcm) ↦ reply (record s { vcm = vcm; msg = msg })
  ]

  -- One round of `while (1)`.
  unfoldable pub round : Session W → Status × Session W
  unfolding respond
  round s =
      let received = net.recv client_sock s.msg s.world in
      let ret_len = received.0.0 in
      let s' = record s { msg = received.0.1; world = received.1 } in
      if is_neg ret_len
      then hang_up s'
      else (if eq_ℤ ret_len (pos 0) then hang_up s' else respond s')

  -- The first `n` rounds, or fewer if the thread exits before.
  unfoldable pub rounds : ℕ → Session W → Status × Session W
  rounds zero s = (running, s)
  rounds (suc n) s =
      let (status, s') = round s in elim status [ running ↦ rounds n s' | exited ↦ (exited, s') ]

module _ {W : Type 0} (socks : Sockets W) (net : Stream W VcmMsg VcmMsg) where
  unfoldable pub server_accept_request : ℤ → ℕ → Vcm → W → Status × Session W
  unfolding rounds
  server_accept_request client_sock n vcm w =
      let peer = socks.getpeername client_sock w in
      let s : Session W = record {
        vcm = vcm;
        world = peer.1;
        msg = record { func_code = pos 0; id = pos 0 };
      } in
      if is_neg peer.0.0 then hang_up net client_sock s else rounds net client_sock n s
