-- ===== src/Client/Threads/Exclusive.antt =====
-- The threads of an application (client/lib/rpc.c) that make their calls one at a time, and two that do
-- not.
use freelite.Base.{ℕ, List, [], ◌∷◌, ◌++◌, map, ◌≡◌, ◌≢◌, refl, sym, ap, ◌∙◌, ℕ_discrete}
use mathlib.Core.List.{map-append}
use mathlib.Core.Path.{subst}
use freelite.Rpc.{RpcReqMsg, RpcRspMsg}
use freelite.Cluster.{update, update_self, update_same, update_other}
use freelite.Client.Threads.{
  Pc, idle, sending, receiving, returned, System, connected, Step, call, send, answer, recv, leave,
  Reach, begins, later,
}

module _ {R : Type 0} (serve : RpcReqMsg → R → RpcRspMsg × R) where
  -- Two threads of an application make a call each, with any requests. There is a run in which both
  -- return 0, the first with the answer to the second one's request and the second with the answer to
  -- the first one's.
  pub responses_may_cross :
      (r : R) (a b : RpcReqMsg)
      → (s : System R) × Reach serve r s
        × (s.pc 0 ≡ returned a (serve b (serve a r).1).0)
        × (s.pc 1 ≡ returned b (serve a r).0)
  unfolding ℕ_discrete
  responses_may_cross r a b = (
    _,
    later
        (later
          (later
            (later
              (later (later (later (later begins (call 0 a refl)) (call 1 b refl)) (send 0 a refl))
                (send 1 b refl))
              (answer a (b ∷ []) refl))
            (answer b [] refl))
          (recv 1 b (serve a r).0 ((serve b (serve a r).1).0 ∷ []) refl refl))
        (recv 0 a (serve b (serve a r).1).0 [] refl refl),
    refl,
    refl,
  )

  -- At most one thread is between its `send` and its `recv`.
  abbrev pub Alone : System R → Type 0
  Alone s = (t u : ℕ) (q q' : RpcReqMsg) → s.pc t ≡ receiving q → s.pc u ≡ receiving q' → t ≡ u

  pub data Serial (r : R) : System R → Type 0 where
    serial_start : Serial r (connected serve r)
    serial_later : {s s' : System R} → Serial r s → Step serve s s' → Alone s' → Serial r s'

  abbrev pub senders : System R → List ℕ
  senders s = map (λ m. m.0) s.sent

  abbrev pub receivers : System R → List ℕ
  receivers s = map (λ m. m.0) s.received

  pub data Matched (s : System R) : Type 0 where
    all_received :
        ((u : ℕ) (q : RpcReqMsg) → s.pc u ≡ receiving q → ⊥) → senders s ≡ receivers s → Matched s
    one_waits :
        (t : ℕ) (req : RpcReqMsg)
        → s.pc t ≡ receiving req
        → ((u : ℕ) (q : RpcReqMsg) → s.pc u ≡ receiving q → u ≡ t)
        → senders s ≡ receivers s ++ t ∷ []
        → Matched s

  -- A thread that waits after a step of `t` to elsewhere is another one, and waited before.
  waited :
      (pc : ℕ → Pc) (t u : ℕ) (p : Pc) (q : RpcReqMsg)
      → ((q : RpcReqMsg) → p ≡ receiving q → ⊥)
      → update pc t p u ≡ receiving q
      → (t ≢ u) × (pc u ≡ receiving q)
  waited pc t u p q away at_ = elim (ℕ_discrete t u) [
    | yes same ↦ absurd (away q (sym (update_same pc t u p same) ∙ at_))
    | no other ↦ (other, sym (update_other pc t u p other) ∙ at_)
  ]

  -- A step of `t` between two places that are not `receiving`.
  moves-Matched :
      (s : System R) (t : ℕ) (p : Pc)
      → ((q : RpcReqMsg) → s.pc t ≡ receiving q → ⊥)
      → ((q : RpcReqMsg) → p ≡ receiving q → ⊥)
      → Matched s
      → Matched (record s { pc = update s.pc t p })
  moves-Matched s t p before away (all_received none_ e) =
      all_received (λ u q at_. none_ u q (waited s.pc t u p q away at_).1) e
  moves-Matched s t p before away (one_waits t₀ req at₀ only e) =
      one_waits t₀ req
        (update_other s.pc t t₀ p
            (λ same. before req (subst (λ w. s.pc w ≡ receiving req) (sym same) at₀))
          ∙ at₀)
        (λ u q at_. only u q (waited s.pc t u p q away at_).1) e

  Step-Matched : {s s' : System R} → Step serve s s' → Alone s' → Matched s → Matched s'
  Step-Matched {s} (call t req at_) alone m =
      moves-Matched s t (sending req) (λ q e. cc) (λ q e. cc) m
  Step-Matched {s} (leave t req rsp at_) alone m = moves-Matched s t idle (λ q e. cc) (λ q e. cc) m
  Step-Matched {s} (answer req reqs e) alone (all_received none_ f) = all_received none_ f
  Step-Matched {s} (answer req reqs e) alone (one_waits t q at_ only f) = one_waits t q at_ only f
  Step-Matched {s} (send t req at_) alone (all_received none_ e) =
      one_waits t req (update_self s.pc t (receiving req))
        (λ u q here. alone u t q req here (update_self s.pc t (receiving req)))
        (map-append (λ m. m.0) s.sent ((t, req) ∷ []) ∙ ap (λ l. l ++ t ∷ []) e)
  Step-Matched {s} (send t req at_) alone (one_waits t₀ q at₀ only e) = absurd (
      apart (
        sym (
          alone t₀ t q req (update_other s.pc t t₀ (receiving req) apart ∙ at₀)
            (update_self s.pc t (receiving req)))))
    where
      apart : t ≢ t₀
      apart same = cc (at_, at₀, ap s.pc same)
  Step-Matched {s} (recv t req rsp rsps at_ e) alone (all_received none_ f) =
      absurd (none_ t req at_)
  Step-Matched {s} (recv t req rsp rsps at_ e) alone (one_waits t₀ q at₀ only f) =
      all_received
        (λ u p here.
          let (other, there) = waited s.pc t u (returned req rsp) p (λ q e. cc) here in
          other (only t req at_ ∙ sym (only u p there)))
        (f
          ∙ ap (λ w. receivers s ++ w ∷ []) (sym (only t req at_))
          ∙ sym (map-append (λ m. m.0) s.received ((t, rsp) ∷ [])))

  pub Serial-Reach : {r : R} {s : System R} → Serial r s → Reach serve r s
  Serial-Reach serial_start = begins
  Serial-Reach (serial_later r step alone) = later (Serial-Reach r) step

  pub Serial-Matched : {r : R} {s : System R} → Serial r s → Matched s
  Serial-Matched serial_start = all_received (λ u q e. cc) refl
  Serial-Matched (serial_later r step alone) = Step-Matched step alone (Serial-Matched r)
