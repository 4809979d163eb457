-- ===== src/Vcm/Serving.antt =====
-- What the threads of vcm/vcm.cpp do to the registry and to their sockets.
use freelite.Base.{
  ℕ, zero, suc, ◌+◌, ◌≤◌, ◌<◌, ℤ, pos, is_neg, eq_ℤ, int_max, List, [], ◌∷◌, ◌++◌, some, ◌≡◌, refl,
  arith, length, length-append, if◌then◌else◌, Option-cases, Bool-cases, inl, inr,
}
use mathlib.Core.List.{append-nil, append_assoc}
use freelite.Os.{Stream, Sockets}
use freelite.Vcm.{Vcm, VcmMsg, nid_vid, handle}
use freelite.Vcm.Registry.{Refines, Agrees, answer, handle-Refines}
use freelite.Vcm.Server.{
  Session, Status, running, exited, reply, respond, round, rounds, server_accept_request,
}

-- The registry of `s` is `nids` with at most `n` more entries at its end.
abbrev pub Grows : ℕ → List ℤ → Vcm → Type 0
Grows n nids s = (more : List ℤ) × Refines s (nids ++ more) × (length more ≤ n)

added : VcmMsg → List ℤ
added msg = if eq_ℤ msg.func_code nid_vid then msg.id ∷ [] else []

answer-added :
    (msg m : VcmMsg) (nids regs : List ℤ)
    → answer msg nids ≡ some (m, regs)
    → (regs ≡ nids ++ added msg) × (length (added msg) ≤ 1)
unfolding added
answer-added msg m nids regs h = ground (arith, append-nil nids)

Grows-same : (nids : List ℤ) (s : Vcm) → Refines s nids → Grows 1 nids s
Grows-same nids s r = ([], rw (append-nil nids) r, omega arith)

handle-Grows :
    (msg m : VcmMsg) (s t : Vcm) (nids : List ℤ)
    → Refines s nids
    → length nids < int_max
    → handle msg s ≡ some (m, t)
    → Grows 1 nids t
handle-Grows msg m s t nids r h e = elim (Option-cases (answer msg nids)) [
  | inl f ↦ absurd (rw (e, f) at (handle-Refines msg s nids r h))
  | inr ((m', regs), f) ↦
      let agrees : Agrees (some (m, t)) (some (m', regs)) =
        rw (e, f) at (handle-Refines msg s nids r h) in
      let new = answer-added msg m' nids regs f in (added msg, rw (← new.0) agrees.1, new.1)
]

module _ {W : Type 0} (net : Stream W VcmMsg VcmMsg) (client_sock : ℤ) where
  reply-vcm : (s : Session W) → (reply net client_sock s).1.vcm ≡ s.vcm
  unfolding reply
  reply-vcm s = ground arith

  respond-Grows :
      (s : Session W) (nids : List ℤ)
      → Refines s.vcm nids
      → length nids < int_max
      → Grows 1 nids (respond net client_sock s).1.vcm
  unfolding respond
  respond-Grows s nids r h = elim (Option-cases (handle s.msg s.vcm)) [
    | inl e ↦ rw (e, respond) (Grows-same nids s.vcm r)
    | inr ((m, t), e) ↦
        rw (e, respond)
          (rw (reply-vcm (record s { vcm = t; msg = m })) (handle-Grows s.msg m s.vcm t nids r h e))
  ]

  round-Grows :
      (s : Session W) (nids : List ℤ)
      → Refines s.vcm nids
      → length nids < int_max
      → Grows 1 nids (round net client_sock s).1.vcm
  unfolding round
  round-Grows s nids r h = elim (Bool-cases (is_neg received.0.0)) [
    | inl failed ↦ rw (failed, round) (Grows-same nids s.vcm r)
    | inr fine ↦
        rw (fine, round)
          (elim (Bool-cases (eq_ℤ received.0.0 (pos 0))) [
            | inl shut ↦ rw shut (Grows-same nids s.vcm r)
            | inr data_in ↦ rw data_in (respond-Grows _ nids r h)
          ])
  ]
    where
      received : (ℤ × VcmMsg) × W
      received = net.recv client_sock s.msg s.world

  rounds_after :
      (n : ℕ) (r : Status × Session W) (nids new : List ℤ)
      → Refines r.1.vcm (nids ++ new)
      → length new ≤ 1
      → Grows n (nids ++ new) (rounds net client_sock n r.1).1.vcm
      → Grows
          (suc n)
          nids
          (elim r.0 as (λ _. Status × Session W) [
            | running ↦ rounds net client_sock n r.1
            | exited ↦ (exited, r.1)
          ]).1.vcm
  rounds_after n (running, t) nids new r few (more, r', few') =
      (new ++ more, rw (append_assoc nids new more) at r', omega (arith, length-append new more))
  rounds_after n (exited, t) nids new r few g = (new, r, omega arith)

  -- However many rounds a thread serves, and however it ends, the registry only grows at its end,
  -- by at most one entry a round: no vid is lost or handed out twice.
  pub rounds-Grows :
      (n : ℕ) (s : Session W) (nids : List ℤ)
      → Refines s.vcm nids
      → length nids + n ≤ int_max
      → Grows n nids (rounds net client_sock n s).1.vcm
  unfolding rounds
  rounds-Grows zero s nids r h = ([], rw (append-nil nids) r, omega arith)
  rounds-Grows (suc n) s nids r h =
      let (new, r', few) = round-Grows s nids r (omega arith) in
      rounds_after n (round net client_sock s) nids new r' few (
        rounds-Grows n (round net client_sock s).1 (nids ++ new) r'
          (omega (arith, length-append nids new)))

  -- The thread's last act is to close its socket.
  abbrev pub Closed : Status × Session W → Type 0
  Closed (running, s) = Unit
  Closed (exited, s) = (w : W) × (s.world ≡ net.close client_sock w)

  reply-Closed : (s : Session W) → Closed (reply net client_sock s)
  unfolding reply
  reply-Closed s = elim (Bool-cases (is_neg (net.send client_sock s.msg s.world).0)) [
    | inl failed ↦ rw (failed, reply) (_, refl)
    | inr fine ↦ rw (fine, reply) tt
  ]

  respond-Closed : (s : Session W) → Closed (respond net client_sock s)
  unfolding respond
  respond-Closed s = elim (Option-cases (handle s.msg s.vcm)) [
    | inl e ↦ rw (e, respond) (_, refl)
    | inr ((m, t), e) ↦ rw (e, respond) (reply-Closed (record s { vcm = t; msg = m }))
  ]

  round-Closed : (s : Session W) → Closed (round net client_sock s)
  unfolding round
  round-Closed s = elim (Bool-cases (is_neg received.0.0)) [
    | inl failed ↦ rw (failed, round) (_, refl)
    | inr fine ↦
        rw (fine, round)
          (elim (Bool-cases (eq_ℤ received.0.0 (pos 0))) [
            | inl shut ↦ rw shut (_, refl)
            | inr data_in ↦ rw data_in (respond-Closed _)
          ])
  ]
    where
      received : (ℤ × VcmMsg) × W
      received = net.recv client_sock s.msg s.world

  rounds-Closed : (n : ℕ) (s : Session W) → Closed (rounds net client_sock n s)
  unfolding rounds
  rounds-Closed zero s = tt
  rounds-Closed (suc n) s =
      after (round net client_sock s) (round-Closed s) (rounds-Closed n (round net client_sock s).1)
    where
      after :
          (r : Status × Session W)
          → Closed r
          → Closed (rounds net client_sock n r.1)
          → Closed (elim r.0 as (λ _. Status × Session W) [
            | running ↦ rounds net client_sock n r.1
            | exited ↦ (exited, r.1)
          ])
      after (running, t) c rest = rest
      after (exited, t) c rest = c

module _ {W : Type 0} (socks : Sockets W) (net : Stream W VcmMsg VcmMsg) where
  -- A thread that serves a connection, from its start, through any number of rounds that cannot
  -- bring the registry above 2 ^ 31 - 1 nids: the registry only grows at its end, by at most an entry
  -- a round, and if the thread ends, its last act is to close its socket.
  pub server_accept_request-Grows :
      (client_sock : ℤ) (n : ℕ) (vcm : Vcm) (w : W) (nids : List ℤ)
      → Refines vcm nids
      → length nids + n ≤ int_max
      → let r = server_accept_request socks net client_sock n vcm w in
        Grows n nids r.1.vcm × Closed net client_sock r
  unfolding server_accept_request
  server_accept_request-Grows client_sock n vcm w nids r h =
      elim (Bool-cases (is_neg (socks.getpeername client_sock w).0.0)) [
        | inl failed ↦
            rw (failed, server_accept_request)
              (([], rw (append-nil nids) r, omega arith), (_, refl))
        | inr fine ↦
            rw (fine, server_accept_request)
              (rounds-Grows net client_sock n _ nids r h, rounds-Closed net client_sock n _)
      ]
