-- ===== src/Client/Opening/Tests.antt =====
-- Concrete runs of the threads that open the socket (client/lib/rpc.c).
use freelite.Base.{ℕ, ℤ, pos, minus_one, true, false, ◌≡◌, ◌≢◌, refl, ◌∙◌, ℕ_discrete}
use freelite.Cluster.{update, update_self, update_other}
use freelite.Client.Opening.{
  Sock, absent, opened, bound, connected, Pc, idle, testing, opening, binding, connecting,
  leaving_conn, sending, sent, receiving, returned, Process, started, Move, call, not_open, socket,
  bind, connect, conn_returns, send, recv, arrives,
}
use freelite.Client.Opening.Races.{Smooth, first_calls_may_fail, sockets_may_leak}
use freelite.Client.Opening.Exclusive.{
  Others, Serial, serial_start, serial_moves, no_socket_is_lost, exclusive_calls_succeed,
}

-- The process after a step of thread 0, which leaves `client_sock`, the sockets and its place so.
abbrev goes : Process → ℤ → (ℕ → Sock) → Pc → Process
goes s c socks p = record { client_sock = c; socks = socks; pc = update s.pc 0 p }

abbrev is_opened : ℕ → Sock
is_opened = update started.socks 3 opened

abbrev is_bound : ℕ → Sock
is_bound = update is_opened 3 bound

abbrev is_connected : ℕ → Sock
is_connected = update is_bound 3 connected

abbrev before_send : Process
before_send =
    let s = goes (goes started minus_one started.socks testing) minus_one started.socks opening in
    let t = goes (goes s (pos 3) is_opened binding) (pos 3) is_bound connecting in
    goes (goes t (pos 3) is_connected leaving_conn) (pos 3) is_connected sending

abbrev after_call : Process
after_call =
    goes (goes (goes before_send (pos 3) is_connected sent) (pos 3) is_connected (receiving 3))
      (pos 3) is_connected (returned (pos 0))

-- Thread 0 alone has called.
abbrev Alone : Process → Type 0
Alone s = Serial true false s × Others 0 s.pc

acts :
    {s : Process} {c : ℤ} {socks : ℕ → Sock} {p : Pc}
    → Alone s
    → Move s.client_sock s.socks (s.pc 0) c socks p
    → Alone (goes s c socks p)
acts {s} {p = p} (run, others) move =
    (serial_moves 0 run others move, λ u other. update_other s.pc 0 u p other ∙ others u other)

runs_to_send : Alone before_send
unfolding ℕ_discrete
runs_to_send =
    let asks = acts (acts (serial_start, λ u _. refl) call) (not_open refl) in
    let binds = acts (acts asks (socket 3 refl)) (bind 3 refl refl) in
    acts (acts binds (connect 3 refl refl)) (conn_returns refl)

runs_to_return : Alone after_call
unfolding ℕ_discrete
runs_to_return = acts (acts (acts runs_to_send (send refl)) (recv 3 refl refl)) (arrives 3)

still_connected : is_connected 3 ≡ connected
still_connected = update_self is_bound 3 connected

no_socket_is_lost_example : pos 3 ≡ pos 3
no_socket_is_lost_example = no_socket_is_lost runs_to_send.0 3 (λ e. cc (still_connected, e))

exclusive_calls_succeed_example : pos 0 ≡ pos 0
unfolding ℕ_discrete
exclusive_calls_succeed_example = exclusive_calls_succeed runs_to_return.0 0 (pos 0) refl

first_calls_may_fail_example :
    (s : Process) × Smooth s × (s.pc 0 ≡ returned minus_one) × (s.pc 1 ≡ returned minus_one)
first_calls_may_fail_example = first_calls_may_fail 3

sockets_may_leak_example :
    (s : Process) × Smooth s
    × (s.pc 0 ≡ idle)
    × (s.pc 1 ≡ idle)
    × (s.client_sock ≡ minus_one)
    × (s.socks 3 ≢ absent)
sockets_may_leak_example = sockets_may_leak 3 4 (λ e. cc)
