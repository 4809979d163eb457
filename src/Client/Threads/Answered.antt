-- ===== src/Client/Threads/Answered.antt =====
-- Whose response a thread receives (client/lib/rpc.c) when the threads make their calls one at a time.
use freelite.Base.{ℕ, List, [], ◌∷◌, ◌++◌, map, ◌≡◌, ◌⊎◌, inl, inr, refl, sym, ap, ◌∙◌}
use freelite.Rpc.{RpcReqMsg, RpcRspMsg}
use freelite.Client.Threads.Order.{responses_in_order}
use freelite.Client.Threads.{By, answers, receiving, System}
use freelite.Client.Threads.Exclusive.{
  Serial, Serial-Reach, Serial-Matched, all_received, one_waits,
}

-- Pairs are known by their first parts, and by their second parts as far as there are first ones.
equal_pairs :
    (xs ys : List (By RpcRspMsg)) (rest : List RpcRspMsg)
    → map (λ m. m.0) xs ≡ map (λ m. m.0) ys
    → map (λ m. m.1) xs ++ rest ≡ map (λ m. m.1) ys
    → xs ≡ ys
equal_pairs [] [] rest e f = refl
equal_pairs [] (y ∷ ys) rest e f = cc
equal_pairs (x ∷ xs) [] rest e f = cc
equal_pairs ((t, m) ∷ xs) ((u, n) ∷ ys) rest e f =
    let ih = equal_pairs xs ys rest (cc) (cc) in
    let a : t ≡ u = cc in let b : m ≡ n = cc in λ i. (a i, b i) ∷ ih i

one_more :
    (xs ys : List (By RpcRspMsg)) (rest : List RpcRspMsg) (t : ℕ)
    → map (λ m. m.0) ys ≡ map (λ m. m.0) xs ++ t ∷ []
    → map (λ m. m.1) xs ++ rest ≡ map (λ m. m.1) ys
    → (m : RpcRspMsg) × (ys ≡ xs ++ (t, m) ∷ [])
one_more [] [] rest t e f = absurd (cc)
one_more (x ∷ xs) [] rest t e f = absurd (cc)
one_more [] ((u, n) ∷ []) rest t e f = let a : u ≡ t = cc in (n, λ i. (a i, n) ∷ [])
one_more [] ((u, n) ∷ (y ∷ ys)) rest t e f = absurd (cc)
one_more ((u, m) ∷ xs) ((w, n) ∷ ys) rest t e f =
    let (k, ih) = one_more xs ys rest t (cc) (cc) in
    let a : w ≡ u = cc in let b : n ≡ m = cc in (k, λ i. (a i, b i) ∷ ih i)

module _ {R : Type 0} (serve : RpcReqMsg → R → RpcRspMsg × R) where
  -- Each thread with the answer to its own request.
  unfoldable pub own_answers : R → List (By RpcReqMsg) → List (By RpcRspMsg)
  own_answers r [] = []
  own_answers r ((t, q) ∷ qs) = (t, (serve q r).0) ∷ own_answers (serve q r).1 qs

  own_answers-senders :
      (r : R) (qs : List (By RpcReqMsg)) → map (λ m. m.0) (own_answers r qs) ≡ map (λ m. m.0) qs
  unfolding own_answers
  own_answers-senders r [] = refl
  own_answers-senders r ((t, q) ∷ qs) = ap (λ ts. t ∷ ts) (own_answers-senders (serve q r).1 qs)

  own_answers-answers :
      (r : R) (qs : List (By RpcReqMsg))
      → map (λ m. m.1) (own_answers r qs) ≡ answers serve r (map (λ m. m.1) qs)
  unfolding own_answers answers
  own_answers-answers r [] = refl
  own_answers-answers r ((t, q) ∷ qs) =
      ap (λ ms. (serve q r).0 ∷ ms) (own_answers-answers (serve q r).1 qs)

  -- As long as no two threads are between `send` and `recv` at one time, every thread receives what
  -- the router, which serves the requests in the order of sending, answers to its own request; only
  -- the thread that has sent the last one may still wait for it.
  pub exclusive_calls_are_answered :
      {r : R} {s : System R}
      → Serial serve r s
      → (s.received ≡ own_answers r s.sent)
        ⊎ ((t : ℕ) × (req : RpcReqMsg) × (rsp : RpcRspMsg) × (s.pc t ≡ receiving req)
            × (s.received ++ (t, rsp) ∷ [] ≡ own_answers r s.sent))
  exclusive_calls_are_answered {r} {s} run =
      let rest = s.responses ++ answers serve s.router s.requests in
      let e =
        (responses_in_order serve (Serial-Reach serve run) 0).1
        ∙ sym (own_answers-answers r s.sent) in
      elim (Serial-Matched serve run) [
        | all_received none_ f ↦ inl (
            equal_pairs s.received (own_answers r s.sent) rest
              (sym f ∙ sym (own_answers-senders r s.sent)) e)
        | one_waits t req at_ only f ↦
            let (m, g) =
              one_more s.received (own_answers r s.sent) rest t (own_answers-senders r s.sent ∙ f)
                e in
            inr (t, req, m, at_, sym g)
      ]
