-- ===== src/Client/Threads/Order.antt =====
-- Which response is received when: the threads of an application take the responses off the socket
-- (client/lib/rpc.c) in the order of the requests, whoever made these.
use freelite.Cluster.{update, update_same, update_other}
use freelite.Base.{
  ℕ, suc, ◌+◌, ◌==◌, ◌≢◌, if◌then◌else◌, ℕ_discrete, arith, List, [], ◌∷◌, ◌++◌, map, ◌≡◌, refl,
  sym, ap, ◌∙◌,
}
use mathlib.Core.List.{map-append, append_assoc}
use freelite.Rpc.{RpcReqMsg, RpcRspMsg}
use freelite.Client.Threads.{
  By, Pc, idle, sending, receiving, returned, System, Step, call, send, answer, recv, leave, Reach,
  begins, later, answers, after,
}

-- How many of these messages a thread has sent or received.
unfoldable pub count : {A : Type 0} → ℕ → List (By A) → ℕ
count t [] = 0
count t (m ∷ ms) = let rest = count t ms in if m.0 == t then suc rest else rest

-- A thread between its `send` and its `recv`.
abbrev pub waits : Pc → ℕ
waits (receiving req) = 1
waits _ = 0

count-append :
    {A : Type 0} (t u : ℕ) (ms : List (By A)) (a : A)
    → count t (ms ++ (u, a) ∷ []) ≡ (if u == t then suc (count t ms) else count t ms)
unfolding count
count-append t u [] a = refl
count-append t u (m ∷ ms) a = ground (arith, count-append t u ms a)

module _ {R : Type 0} (serve : RpcReqMsg → R → RpcRspMsg × R) where
  answers-append :
      (r : R) (qs : List RpcReqMsg) (q : RpcReqMsg)
      → answers serve r (qs ++ q ∷ []) ≡ answers serve r qs ++ (serve q (after serve r qs)).0 ∷ []
  unfolding answers after
  answers-append r [] q = refl
  answers-append r (p ∷ qs) q = ap (λ ms. (serve p r).0 ∷ ms) (answers-append (serve p r).1 qs q)

  after-append :
      (r : R) (qs : List RpcReqMsg) (q : RpcReqMsg)
      → after serve r (qs ++ q ∷ []) ≡ (serve q (after serve r qs)).1
  unfolding after
  after-append r [] q = refl
  after-append r (p ∷ qs) q = after-append (serve p r).1 qs q

  abbrev requests_of : System R → List RpcReqMsg
  requests_of s = map (λ m. m.1) s.sent

  abbrev responses_of : System R → List RpcRspMsg
  responses_of s = map (λ m. m.1) s.received

  -- What is on the socket is what is missing.
  record InOrder (r : R) (s : System R) : Type 0 where
    pub state : after serve r (requests_of s) ≡ after serve s.router s.requests
    pub order :
        answers serve r (requests_of s)
        ≡ responses_of s ++ (s.responses ++ answers serve s.router s.requests)

  Step-InOrder : {r : R} {s s' : System R} → Step serve s s' → InOrder r s → InOrder r s'
  unfolding answers after
  Step-InOrder (call t req at_) k = record { state = k.state; order = k.order }
  Step-InOrder (leave t req rsp at_) k = record { state = k.state; order = k.order }
  Step-InOrder {r} {s} (send t req at_) k = record {
    state = rw (map-append (λ m. m.1) s.sent ((t, req) ∷ [])) (
        after-append r (requests_of s) req
        ∙ ap (λ x. (serve req x).1) k.state
        ∙ sym (after-append s.router s.requests req));
    order = rw (map-append (λ m. m.1) s.sent ((t, req) ∷ [])) (
        answers-append r (requests_of s) req
        ∙ (λ i. k.order i ++ (serve req (k.state i)).0 ∷ [])
        ∙ append_assoc (responses_of s) (s.responses ++ pending) (last ∷ [])
        ∙ ap (λ ms. responses_of s ++ ms) (append_assoc s.responses pending (last ∷ []))
        ∙ ap (λ ms. responses_of s ++ (s.responses ++ ms))
            (sym (answers-append s.router s.requests req)));
  }
    where
      pending : List RpcRspMsg
      pending = answers serve s.router s.requests

      last : RpcRspMsg
      last = (serve req (after serve s.router s.requests)).0
  Step-InOrder {r} {s} (answer req reqs e) k = record {
    state = k.state ∙ ap (after serve s.router) e;
    order =
        k.order
        ∙ ap (λ qs. responses_of s ++ (s.responses ++ answers serve s.router qs)) e
        ∙ ap (λ ms. responses_of s ++ ms)
            (sym (
              append_assoc s.responses ((serve req s.router).0 ∷ [])
                (answers serve (serve req s.router).1 reqs)));
  }
  Step-InOrder {r} {s} (recv t req rsp rsps at_ e) k = record {
    state = k.state;
    order = rw (map-append (λ m. m.1) s.received ((t, rsp) ∷ [])) (
        k.order
        ∙ ap (λ ms. responses_of s ++ (ms ++ answers serve s.router s.requests)) e
        ∙ sym
            (append_assoc (responses_of s) (rsp ∷ []) (rsps ++ answers serve s.router s.requests)));
  }

  Reach-InOrder : {r : R} {s : System R} → Reach serve r s → InOrder r s
  unfolding answers after
  Reach-InOrder begins = record { state = refl; order = refl }
  Reach-InOrder (later r step) = Step-InOrder step (Reach-InOrder r)

  -- What a call leaves alone holds of the thread that makes it and of every other one.
  waits-update :
      (pc : ℕ → Pc) (u t : ℕ) (p : Pc) (m n : ℕ)
      → (u ≡ t → m ≡ n + waits p)
      → (u ≢ t → m ≡ n + waits (pc t))
      → m ≡ n + waits (update pc u p t)
  waits-update pc u t p m n here there = elim (ℕ_discrete u t) [
    | yes same ↦ rw (update_same pc u t p same) (here same)
    | no other ↦ rw (update_other pc u t p other) (there other)
  ]

  -- A thread sends once and receives once in each call.
  Step-takes_turns :
      (t : ℕ) {s s' : System R}
      → Step serve s s'
      → count t s.sent ≡ count t s.received + waits (s.pc t)
      → count t s'.sent ≡ count t s'.received + waits (s'.pc t)
  Step-takes_turns t {s} (call u req at_) k =
      waits-update s.pc u t (sending req) _ _
        (λ e. k ∙ ap (λ p. count t s.received + waits p) (ap s.pc (sym e) ∙ at_)) (λ _. k)
  Step-takes_turns t {s} (send u req at_) k =
      let added = count-append t u s.sent req in
      waits-update s.pc u t (receiving req) _ _
        (λ e.
          let here = k ∙ ap (λ p. count t s.received + waits p) (ap s.pc (sym e) ∙ at_) in
          ground (arith, added, here, e))
        (λ other. ground (arith, added, k, other))
  Step-takes_turns t (answer req reqs e) k = k
  Step-takes_turns t {s} (recv u req rsp rsps at_ e) k =
      let added = count-append t u s.received rsp in
      waits-update s.pc u t (returned req rsp) _ _
        (λ e.
          let here = k ∙ ap (λ p. count t s.received + waits p) (ap s.pc (sym e) ∙ at_) in
          ground (arith, added, here, e))
        (λ other. ground (arith, added, k, other))
  Step-takes_turns t {s} (leave u req rsp at_) k =
      waits-update s.pc u t idle _ _
        (λ e. k ∙ ap (λ p. count t s.received + waits p) (ap s.pc (sym e) ∙ at_)) (λ _. k)

  Reach-takes_turns :
      (t : ℕ) {r : R} {s : System R}
      → Reach serve r s
      → count t s.sent ≡ count t s.received + waits (s.pc t)
  unfolding count
  Reach-takes_turns t begins = omega arith
  Reach-takes_turns t (later r step) = Step-takes_turns t step (Reach-takes_turns t r)

  -- Threads make calls in any order. Each thread has received one response for each request that it
  -- has sent, but for one while it is between its `send` and its `recv`. The responses that all of
  -- them have received, in the order in which they have received them, with those still on the socket
  -- and those to the requests still on it, are what the router answers to the requests one after
  -- another, in the order in which these were sent, whoever made them.
  pub responses_in_order :
      {r : R} {s : System R}
      → Reach serve r s
      → (t : ℕ)
      → (count t s.sent ≡ count t s.received + waits (s.pc t))
        × (map (λ m. m.1) s.received ++ (s.responses ++ answers serve s.router s.requests)
            ≡ answers serve r (map (λ m. m.1) s.sent))
  responses_in_order r t = (Reach-takes_turns t r, sym (Reach-InOrder r).order)
