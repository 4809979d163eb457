-- ===== src/Client/Opening/Races.antt =====
-- Two threads of an application that make their first call at one time (client/lib/rpc.c).
use freelite.Base.{ℕ, ℤ, minus_one, ◌≡◌, ◌≢◌, refl, sym, ◌∙◌, ℕ_discrete}
use freelite.Cluster.{update, update_self, update_other}
use freelite.Client.Opening.{
  Sock, absent, opened, bound, Pc, idle, returned, Process, started, Move, call, is_open, not_open,
  socket, bind, bind_refused, connect_refused, send_refused, drop, leave,
}

-- No call of the operating system fails that could succeed.
pub data Smooth : Process → Type 0 where
  begins : Smooth started
  then :
      {s : Process} (t : ℕ) {c : ℤ} {socks : ℕ → Sock} {p : Pc}
      → Smooth s
      → Move s.client_sock s.socks (s.pc t) c socks p
      → Smooth (record { client_sock = c; socks = socks; pc = update s.pc t p })

-- Two threads make their first calls, and no call of the operating system fails that could succeed.
-- There is a run in which both calls return -1: one thread finds the new socket of the other one and
-- sends on it before it is connected.
pub first_calls_may_fail :
    (fd : ℕ)
    → (s : Process) × Smooth s × (s.pc 0 ≡ returned minus_one) × (s.pc 1 ≡ returned minus_one)
unfolding ℕ_discrete
first_calls_may_fail fd = (
  _,
  then 0
      (then 0
        (then 1
          (then 1
            (then 1
              (then 0 (then 0 (then 1 (then 0 begins call) call) (not_open refl)) (socket fd refl))
              (is_open (λ e. cc)))
            (send_refused (λ e. cc (update_self started.socks fd opened, e))))
          drop)
        (bind_refused (λ e. cc)))
      drop,
  refl,
  refl,
)

-- Two threads make their first calls, and no call of the operating system fails that could succeed.
-- There is a run after which both threads have returned, `client_sock` is -1, and a socket that one of
-- them has opened is still open.
pub sockets_may_leak :
    (a b : ℕ)
    → a ≢ b
    → (s : Process) × Smooth s
      × (s.pc 0 ≡ idle)
      × (s.pc 1 ≡ idle)
      × (s.client_sock ≡ minus_one)
      × (s.socks a ≢ absent)
unfolding ℕ_discrete
sockets_may_leak a b other = (
  _,
  then 1
      (then 0
        (then 0
          (then 0
            (then 1
              (then 1
                (then 0
                  (then 1
                    (then 0
                      (then 1 (then 0 (then 1 (then 0 begins call) call) (not_open refl))
                        (not_open refl))
                      (socket a refl))
                    (socket b (update_other started.socks a b opened other)))
                  (bind b refl (update_self (update started.socks a opened) b opened)))
                (bind_refused (λ e.
                  cc (update_self (update (update started.socks a opened) b opened) b bound, e))))
              drop)
            (connect_refused refl))
          drop)
        (leave minus_one))
      (leave minus_one),
  refl,
  refl,
  refl,
  λ e. cc (still_open, e),
)
  where
    back : b ≢ a
    back e = other (sym e)

    still_open :
        update (update (update (update started.socks a opened) b opened) b bound) b absent a
        ≡ opened
    still_open =
        update_other (update (update (update started.socks a opened) b opened) b bound) b a absent
          back
        ∙ update_other (update (update started.socks a opened) b opened) b a bound back
        ∙ update_other (update started.socks a opened) b a opened back
        ∙ update_self started.socks a opened
