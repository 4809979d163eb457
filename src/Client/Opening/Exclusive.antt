-- ===== src/Client/Opening/Exclusive.antt =====
-- Threads that make their calls of `rpc_handler` one at a time (client/lib/rpc.c).
use freelite.Base.{
  ℕ, ℤ, pos, is_neg, Bool, true, false, arith, ◌&&◌, ◌⊎◌, inr, ◌≡◌, ◌≢◌, inl, refl, sym, ap, ◌∙◌,
  ℕ_discrete,
}
use mathlib.Core.Path.{subst}
use freelite.Cluster.{update, update_self, update_other}
use freelite.Client.Opening.{
  Sock, absent, opened, connected, can_connect, Pc, idle, sending, dropping, returned, Process,
  started, sock_at, Move, call, is_open, not_open, socket, bind, bind_refused, connect,
  connect_refused, conn_returns, conn_fails, send, send_refused, recv, recv_refused, arrives, drop,
  leave, Fault,
}
use freelite.Client.Opening.Sockets.{Holds, owned, no_leak, Move-Holds, Fault-Holds}

-- All threads but one are in no call.
abbrev pub Others : ℕ → (ℕ → Pc) → Type 0
Others t pc = (u : ℕ) → t ≢ u → pc u ≡ idle

-- A thread acts only while the others are in no call. If `may_fail` is false, nothing fails that could
-- succeed.
pub data Serial (container may_fail : Bool) : Process → Type 0 where
  serial_start : Serial container may_fail started
  serial_moves :
      {s : Process} (t : ℕ) {c : ℤ} {socks : ℕ → Sock} {p : Pc}
      → Serial container may_fail s
      → Others t s.pc
      → Move s.client_sock s.socks (s.pc t) c socks p
      → Serial container may_fail (record { client_sock = c; socks = socks; pc = update s.pc t p })
  serial_fails :
      {s : Process} (t : ℕ) {c : ℤ} {socks : ℕ → Sock} {p : Pc}
      → Serial container may_fail s
      → Others t s.pc
      → may_fail ≡ true
      → Fault container s.client_sock s.socks (s.pc t) c socks p
      → Serial container may_fail (record { client_sock = c; socks = socks; pc = update s.pc t p })

-- No refusal comes, and no call returns an error.
abbrev pub Good : Pc → Type 0
Good dropping = ⊥
Good (returned r) = r ≡ pos 0
Good _ = Unit

Move-Good :
    {c c' : ℤ} {socks socks' : ℕ → Sock} {p p' : Pc}
    → Move c socks p c' socks' p'
    → Holds false p c socks
    → Good p
    → Good p'
Move-Good call h g = tt
Move-Good (is_open e) h g = tt
Move-Good (not_open e) h g = tt
Move-Good (socket fd free) h g = tt
Move-Good (bind fd e there) h g = tt
Move-Good (bind_refused e) h g = e (owned h)
Move-Good (connect fd e can) h g = tt
Move-Good (connect_refused e) h g = let f = owned h in cc (ap can_connect f, e)
Move-Good (conn_returns e) h g = tt
Move-Good (conn_fails e) h g = let f = h.named in cc (ap is_neg f, e)
Move-Good (send e) h g = tt
Move-Good (send_refused e) h g = elim h [ inl o ↦ e (owned o) | inr (half, _) ↦ cc ]
Move-Good (recv fd e there) h g = tt
Move-Good (recv_refused e) h g = e (owned h)
Move-Good (arrives fd) h g = refl
Move-Good drop h g = absurd g
Move-Good (leave r) h g = tt

-- What holds between any two steps of one thread at a time.
record Inv (container may_fail : Bool) (s : Process) : Type 0 where
  active : ℕ
  others : Others active s.pc
  holds : Holds (container && may_fail) (s.pc active) s.client_sock s.socks
  good : may_fail ≡ false → Good (s.pc active)

-- The thread that acts may be taken for the active one.
module _ {container may_fail : Bool} (s : Process) (t : ℕ) (others : Others t s.pc)
    (inv : Inv container may_fail s) where
  at_active : (P : Pc → Type 0) → P (s.pc inv.active) → P (s.pc t)
  at_active P h = elim (ℕ_discrete inv.active t) [
    | yes same ↦ subst (λ u. P (s.pc u)) same h
    | no other ↦ subst P (others inv.active (λ e. other (sym e)) ∙ sym (inv.others t other)) h
  ]

  steps-Inv :
      (c : ℤ) (socks : ℕ → Sock) (p : Pc)
      → Holds (container && may_fail) p c socks
      → (may_fail ≡ false → Good p)
      → Inv container may_fail (record { client_sock = c; socks = socks; pc = update s.pc t p })
  steps-Inv c socks p h g = record {
    active = t;
    others = λ u other. update_other s.pc t u p other ∙ others u other;
    holds = subst (λ q. Holds (container && may_fail) q c socks) (sym (update_self s.pc t p)) h;
    good = λ calm. subst Good (sym (update_self s.pc t p)) (g calm);
  }

calm_half : (container may_fail : Bool) → may_fail ≡ false → container && may_fail ≡ false
calm_half true may_fail calm = calm
calm_half false may_fail calm = refl

Serial-Inv :
    {container may_fail : Bool} {s : Process}
    → Serial container may_fail s
    → Inv container may_fail s
Serial-Inv serial_start = record {
  active = 0;
  others = λ u _. refl;
  holds = inl (refl, λ fd. refl);
  good = λ _. tt;
}
Serial-Inv {container} {may_fail} (serial_moves {s = s} t {c} {socks} {p} run others move) =
    let half = container && may_fail in
    let inv = Serial-Inv run in
    let h = at_active s t others inv (λ q. Holds half q s.client_sock s.socks) inv.holds in
    steps-Inv s t others inv c socks p (Move-Holds half move h) (λ calm.
      Move-Good move
        (subst (λ b. Holds b (s.pc t) s.client_sock s.socks) (calm_half container may_fail calm) h)
        (at_active s t others inv Good (inv.good calm)))
Serial-Inv {container} {may_fail} (serial_fails {s = s} t {c} {socks} {p} run others may fault) =
    let half = container && may_fail in
    let inv = Serial-Inv run in
    steps-Inv s t others inv c socks p
      (Fault-Holds half (λ e. ground (arith, may)) fault
        (at_active s t others inv (λ q. Holds half q s.client_sock s.socks) inv.holds))
      (λ calm. cc)

-- A thread that is in a call is the active one.
is_active :
    {container may_fail : Bool} (s : Process) (inv : Inv container may_fail s) (t : ℕ) (p : Pc)
    → p ≢ idle
    → s.pc t ≡ p
    → s.pc inv.active ≡ p
is_active s inv t p busy e = elim (ℕ_discrete inv.active t) [
  | yes same ↦ ap s.pc same ∙ e
  | no other ↦ absurd (busy (sym e ∙ inv.others t other))
]

-- The threads call `rpc_handler` one at a time, in either build, and anything may fail. An open socket
-- is always the one that `client_sock` holds: none is lost.
pub no_socket_is_lost :
    {container may_fail : Bool} {s : Process}
    → Serial container may_fail s
    → (fd : ℕ) → s.socks fd ≢ absent
    → s.client_sock ≡ pos fd
no_socket_is_lost {container} {may_fail} {s} run =
    let inv = Serial-Inv run in no_leak (container && may_fail) (s.pc inv.active) s.socks inv.holds

-- The threads call `rpc_handler` one at a time. A thread that sends finds a connected socket or, if the
-- id of the container could not be read before, one that is neither bound nor connected.
pub exclusive_sends_are_connected :
    {container may_fail : Bool} {s : Process}
    → Serial container may_fail s
    → (t : ℕ) → s.pc t ≡ sending
    → (sock_at s.client_sock s.socks ≡ connected)
      ⊎ ((container && may_fail ≡ true) × (sock_at s.client_sock s.socks ≡ opened))
exclusive_sends_are_connected {container} {may_fail} {s} run t e =
    let inv = Serial-Inv run in
    let here = is_active s inv t sending (λ f. cc) e in
    let ready = subst (λ p. Holds (container && may_fail) p s.client_sock s.socks) here inv.holds in
    elim ready [ inl o ↦ inl (owned o) | inr (half, o) ↦ inr (half, owned o) ]

-- The threads call `rpc_handler` one at a time, in either build, and nothing fails that could succeed.
-- No call returns an error.
pub exclusive_calls_succeed :
    {container : Bool} {s : Process}
    → Serial container false s
    → (t : ℕ) (r : ℤ) → s.pc t ≡ returned r
    → r ≡ pos 0
exclusive_calls_succeed {s = s} run t r e =
    let inv = Serial-Inv run in
    subst Good (is_active s inv t (returned r) (λ f. cc) e) (inv.good refl)
