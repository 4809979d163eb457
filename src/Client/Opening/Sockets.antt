-- ===== src/Client/Opening/Sockets.antt =====
-- Which socket an application holds open while one thread calls (client/lib/rpc.c).
use freelite.Base.{
  ℕ, ℤ, pos, minus_one, Bool, true, ◌≡◌, ◌≢◌, ◌⊎◌, inl, inr, refl, sym, ap, ◌∙◌, ℕ_discrete,
}
use mathlib.Core.Path.{subst}
use freelite.Cluster.{update, update_self, update_same, update_other}
use freelite.Client.Opening.{
  Sock, absent, opened, bound, connected, Pc, idle, testing, opening, binding, connecting,
  leaving_conn, sending, sent, receiving, dropping, returned, sock_at, closed, Move, call, is_open,
  not_open, socket, bind, bind_refused, connect, connect_refused, conn_returns, conn_fails, send,
  send_refused, recv, recv_refused, arrives, drop, leave, Fault, socket_fails, no_cid, bind_fails,
  connect_fails, send_fails, recv_fails,
}

-- No socket is open, or the one in `client_sock` is, with this state.
abbrev pub NoneOpen : (ℕ → Sock) → Type 0
NoneOpen socks = (fd : ℕ) → socks fd ≡ absent

pub record Owns (st : Sock) (c : ℤ) (socks : ℕ → Sock) : Type 0 where
  pub fd : ℕ
  pub named : c ≡ pos fd
  pub there : socks fd ≡ st
  pub rest : (g : ℕ) → fd ≢ g → socks g ≡ absent

-- The socket in `client_sock` is connected, or, where `half` is true, was opened and no more.
abbrev pub Ready : Bool → ℤ → (ℕ → Sock) → Type 0
Ready half c socks = Owns connected c socks ⊎ ((half ≡ true) × Owns opened c socks)

abbrev pub Resting : Bool → ℤ → (ℕ → Sock) → Type 0
Resting half c socks = ((c ≡ minus_one) × NoneOpen socks) ⊎ Ready half c socks

-- What holds where the thread in the call stands.
abbrev pub Holds : Bool → Pc → ℤ → (ℕ → Sock) → Type 0
Holds half idle c socks = Resting half c socks
Holds half testing c socks = Resting half c socks
Holds half (returned r) c socks = Resting half c socks
Holds half opening c socks = NoneOpen socks
Holds half binding c socks = Owns opened c socks
Holds half connecting c socks = Owns bound c socks
Holds half leaving_conn c socks = Owns connected c socks
Holds half sending c socks = Ready half c socks
Holds half sent c socks = Owns connected c socks
Holds half (receiving fd) c socks = Owns connected c socks
Holds half dropping c socks = NoneOpen socks

Owns-new :
    (socks : ℕ → Sock) (fd : ℕ) (st : Sock) → NoneOpen socks → Owns st (pos fd) (update socks fd st)
Owns-new socks fd st none_ = record {
  fd = fd;
  named = refl;
  there = update_self socks fd st;
  rest = λ g other. update_other socks fd g st other ∙ none_ g;
}

Owns-next :
    {st : Sock} {c : ℤ} {socks : ℕ → Sock} (fd : ℕ) (st' : Sock)
    → c ≡ pos fd
    → Owns st c socks
    → Owns st' c (update socks fd st')
Owns-next {st} {c} {socks} fd st' e o = record {
  fd = fd;
  named = e;
  there = update_self socks fd st';
  rest = λ g other. update_other socks fd g st' other ∙ o.rest g (λ s. other (cc (e, o.named, s)));
}

closes : {st : Sock} {c : ℤ} {socks : ℕ → Sock} → Owns st c socks → NoneOpen (closed c socks)
closes {st} {c} {socks} o =
    subst (λ k. NoneOpen (closed k socks)) (sym o.named)
      (λ g. elim (ℕ_discrete o.fd g) [
        | yes same ↦ update_same socks o.fd g absent same
        | no other ↦ update_other socks o.fd g absent other ∙ o.rest g other
      ])

closes-Ready :
    {half : Bool} {c : ℤ} {socks : ℕ → Sock} → Ready half c socks → NoneOpen (closed c socks)
closes-Ready r = elim r [ inl o ↦ closes o | inr (_, o) ↦ closes o ]

pub owned : {st : Sock} {c : ℤ} {socks : ℕ → Sock} → Owns st c socks → sock_at c socks ≡ st
owned {st} {c} {socks} o = subst (λ k. sock_at k socks ≡ st) (sym o.named) o.there

module _ (half : Bool) where
  pub Move-Holds :
      {c c' : ℤ} {socks socks' : ℕ → Sock} {p p' : Pc}
      → Move c socks p c' socks' p'
      → Holds half p c socks
      → Holds half p' c' socks'
  Move-Holds call h = h
  Move-Holds (is_open e) h = elim h [ inl (none_, _) ↦ absurd (e none_) | inr o ↦ o ]
  Move-Holds (not_open e) h = elim h [
    | inl (_, none_) ↦ none_
    | inr (inl o) ↦ let f = o.named in cc
    | inr (inr (_, o)) ↦ let f = o.named in cc
  ]
  Move-Holds {socks = socks} (socket fd free) h = Owns-new socks fd opened h
  Move-Holds (bind fd e there) h = Owns-next fd bound e h
  Move-Holds (bind_refused e) h = closes h
  Move-Holds (connect fd e can) h = Owns-next fd connected e h
  Move-Holds (connect_refused e) h = closes h
  Move-Holds (conn_returns e) h = inl h
  Move-Holds (conn_fails e) h = inr (inl h)
  Move-Holds (send e) h = elim h [ inl o ↦ o | inr (_, o) ↦ let f = owned o in cc ]
  Move-Holds (send_refused e) h = closes-Ready h
  Move-Holds (recv fd e there) h = h
  Move-Holds (recv_refused e) h = closes h
  Move-Holds (arrives fd) h = inr (inl h)
  Move-Holds drop h = inl (refl, h)
  Move-Holds (leave r) h = h

  pub Fault-Holds :
      {container : Bool} {c c' : ℤ} {socks socks' : ℕ → Sock} {p p' : Pc}
      → (container ≡ true → half ≡ true)
      → Fault container c socks p c' socks' p'
      → Holds half p c socks
      → Holds half p' c' socks'
  Fault-Holds may socket_fails h = inl (refl, h)
  Fault-Holds may (no_cid e) h = inr (inr (may e, h))
  Fault-Holds may bind_fails h = closes h
  Fault-Holds may connect_fails h = closes h
  Fault-Holds may send_fails h = closes-Ready h
  Fault-Holds may (recv_fails fd) h = closes h

Owns-named :
    {st : Sock} {c : ℤ} {socks : ℕ → Sock}
    → Owns st c socks
    → (fd : ℕ) → socks fd ≢ absent
    → c ≡ pos fd
Owns-named o fd e = elim (ℕ_discrete o.fd fd) [
  | yes same ↦ o.named ∙ ap pos same
  | no other ↦ absurd (e (o.rest fd other))
]

Ready-named :
    {half : Bool} {c : ℤ} {socks : ℕ → Sock}
    → Ready half c socks
    → (fd : ℕ) → socks fd ≢ absent
    → c ≡ pos fd
Ready-named h fd e = elim h [ inl o ↦ Owns-named o fd e | inr (_, o) ↦ Owns-named o fd e ]

Resting-named :
    {half : Bool} {c : ℤ} {socks : ℕ → Sock}
    → Resting half c socks
    → (fd : ℕ) → socks fd ≢ absent
    → c ≡ pos fd
Resting-named h fd e = elim h [
  | inl (_, none_) ↦ absurd (e (none_ fd))
  | inr r ↦ Ready-named r fd e
]

pub no_leak :
    (half : Bool) (p : Pc) {c : ℤ} (socks : ℕ → Sock)
    → Holds half p c socks
    → (fd : ℕ) → socks fd ≢ absent
    → c ≡ pos fd
no_leak half idle _ h = Resting-named h
no_leak half testing _ h = Resting-named h
no_leak half opening _ h = λ fd e. absurd (e (h fd))
no_leak half binding _ h = Owns-named h
no_leak half connecting _ h = Owns-named h
no_leak half leaving_conn _ h = Owns-named h
no_leak half sending _ h = Ready-named h
no_leak half sent _ h = Owns-named h
no_leak half (receiving fd) _ h = Owns-named h
no_leak half dropping _ h = λ fd e. absurd (e (h fd))
no_leak half (returned r) _ h = Resting-named h
