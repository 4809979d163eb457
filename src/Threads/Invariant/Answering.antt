-- ===== src/Threads/Invariant/Answering.antt =====
-- The answers of the manager (vcm/vcm.cpp) keep what holds of the whole system.
use freelite.Base.{
  ℕ, ◌≤◌, ◌<◌, ℤ, int_max, ℕ_discrete, List, ◌++◌, none, some, ◌≡◌, refl, sym, ap, ◌∙◌, length,
  Option, Option-cases, inl, inr, some_injective,
}
use mathlib.Core.Path.{subst}
use freelite.Vcm.{Vcm, VcmMsg}
use freelite.Vcm.Registry.{Refines}
use freelite.Cluster.{update, update-all, update_same, update_other}
use freelite.Cluster.Ownership.{Owner, nids_of}
use freelite.Threads.Worker.{
  Query, Host, request, response, Pc, idle, blocked, looking, asking, awaiting, answered, returning,
  message,
}
use freelite.Threads.System.{System, Serve, serves}
use freelite.Threads.Invariant.{HostInv, ThreadInv, Fits, IsConnected, Carries, IsSane, Answers}
use freelite.Threads.Invariant.Serving.{
  handle-Answered, HostInv-appends, Fits-appends, answered-HostInv, answered-Fits,
}
use freelite.Threads.Invariant.Whole.{Inv}

module _ (nid : ℕ → ℤ) (host_of : ℕ → ℕ) where
  unfoldable awaited : Pc → Option Query
  awaited (awaiting q) = some q
  awaited _ = none

  awaited-some : (p : Pc) (q : Query) → awaited p ≡ some q → p ≡ awaiting q
  unfolding awaited
  awaited-some (awaiting q') q e = ap awaiting (some_injective e)
  awaited-some idle q e = cc
  awaited-some (blocked c) q e = cc
  awaited-some (looking c) q e = cc
  awaited-some (asking q') q e = cc
  awaited-some (answered q' id) q e = cc
  awaited-some (returning c n) q e = cc

  module _ (owners : List Owner) (s : System) (inv : Inv nid host_of owners s) where
    -- A thread that waits for a response.
    waiting :
        (t i : ℕ) (q : Query)
        → host_of t ≡ i
        → s.pc t ≡ awaiting q
        → ((s.host i).holder ≡ some t)
          × (IsConnected nid owners i (s.host i) × Carries nid owners i q (s.host i).wire)
    waiting t i q e at_ =
        subst (λ p. ThreadInv nid owners i t (s.host i) p) at_
          (subst (λ j. ThreadInv nid owners j t (s.host j) (s.pc t)) e (inv.threads t)) refl

    abbrev Asked : ℕ → VcmMsg → Query → Type 0
    Asked i m q =
        (m ≡ message (nid i) q)
        × ((t : ℕ) (q' : Query) → host_of t ≡ i → s.pc t ≡ awaiting q' → q' ≡ q)

    -- The query that a request on a router's connection comes from. It is that of the thread that
    -- waits for the response, if there is one.
    module _ (i : ℕ) (m : VcmMsg) (sent : (s.host i).wire ≡ request m) where
      of_nobody :
          ((t : ℕ) (q : Query) → host_of t ≡ i → s.pc t ≡ awaiting q → ⊥)
          → (q : Query) × Asked i m q
      of_nobody none_waits =
          let any : IsSane nid owners i (request m) =
            subst (λ w. IsSane nid owners i w) sent (inv.hosts i).sane in
          (any.0, (any.1, λ t q e a. absurd (none_waits t q e a)))

      module _ (t : ℕ) (held : (s.host i).holder ≡ some t) where
        waits_holding : (u : ℕ) (q : Query) → host_of u ≡ i → s.pc u ≡ awaiting q → u ≡ t
        waits_holding u q e a = some_injective (sym (waiting u i q e a).0 ∙ held)

        of_holder : (q : Query) → host_of t ≡ i → s.pc t ≡ awaiting q → (q : Query) × Asked i m q
        unfolding awaited
        of_holder q near at_ = (
          q,
          (
            subst (λ w. Carries nid owners i q w) sent (waiting t i q near at_).1.1,
            λ u q' e a.
                some_injective (ap awaited (sym a ∙ ap s.pc (waits_holding u q' e a) ∙ at_)),
          ),
        )

        of_none : awaited (s.pc t) ≡ none → (q : Query) × Asked i m q
        unfolding awaited
        of_none nothing =
            of_nobody
              (λ u q e a. cc (ap awaited (sym a ∙ ap s.pc (waits_holding u q e a)), nothing))

      asked : (q : Query) × Asked i m q
      asked = elim (Option-cases (s.host i).holder) [
        | inl free ↦ of_nobody (λ t q e a. cc ((waiting t i q e a).0))
        | inr (t, held) ↦ elim (ℕ_discrete (host_of t) i) [
          | no far ↦
              of_nobody
                (λ u q e a. far (subst (λ w. host_of w ≡ i) (waits_holding t held u q e a) e))
          | yes near ↦ elim (Option-cases (awaited (s.pc t))) [
            | inl nothing ↦ of_none t held nothing
            | inr (q, at_) ↦ of_holder t held q near (awaited-some (s.pc t) q at_)
          ]
        ]
      ]

    -- An answer of the manager.
    module _ (i : ℕ) (m m' : VcmMsg) (v : Vcm) (more : List Owner) (q : Query)
        (sent : (s.host i).wire ≡ request m)
        (alone : (t : ℕ) (q' : Query) → host_of t ≡ i → s.pc t ≡ awaiting q' → q' ≡ q)
        (right : Answers nid (owners ++ more) i q m'.id) where
      abbrev after : Host
      after = record (s.host i) { wire = response m' }

      served-ThreadInv :
          (t : ℕ)
          → ThreadInv nid
              (owners ++ more)
              (host_of t)
              t
              (update s.host i after (host_of t))
              (s.pc t)
      served-ThreadInv t c = elim (ℕ_discrete i (host_of t)) [
        | yes near ↦
            subst (λ g. (g.holder ≡ some t) × Fits nid (owners ++ more) (host_of t) g (s.pc t))
              (sym (update_same s.host i (host_of t) after near)) (here near)
        | no far ↦
            subst (λ g. (g.holder ≡ some t) × Fits nid (owners ++ more) (host_of t) g (s.pc t))
              (sym (update_other s.host i (host_of t) after far))
              (
                (inv.threads t c).0,
                Fits-appends nid owners more (host_of t) (s.host (host_of t)) (s.pc t)
                    (inv.threads t c).1,
              )
      ]
        where
          here :
              i ≡ host_of t
              → (after.holder ≡ some t) × Fits nid (owners ++ more) (host_of t) after (s.pc t)
          here near =
              let (held, f) =
                subst (λ j. ((s.host j).holder ≡ some t) × Fits nid owners j (s.host j) (s.pc t))
                  (sym near) (inv.threads t c) in
              (
                held,
                subst (λ j. Fits nid (owners ++ more) j after (s.pc t)) near
                    (answered-Fits nid owners more i (s.host i) m m' q sent right (s.pc t)
                      (λ q' a. alone t q' (sym near) a) f),
              )

      served-Inv :
          Refines v (nids_of nid (owners ++ more))
          → Inv nid host_of (owners ++ more) (record s { vcm = v; host = update s.host i after })
      served-Inv r = record {
        manager = r;
        hosts =
            update-all (HostInv nid (owners ++ more)) s.host i after
              (answered-HostInv nid owners more i (s.host i) m m' q sent right (inv.hosts i))
              (λ j. HostInv-appends nid owners more j (s.host j) (inv.hosts j));
        threads = served-ThreadInv;
      }

  pub Serve-Inv :
      (owners : List Owner) {s s' : System}
      → length owners < int_max
      → Serve nid host_of s s'
      → Inv nid host_of owners s
      → (more : List Owner) × (Inv nid host_of (owners ++ more) s' × (length more ≤ 1))
  Serve-Inv owners {s} small (serves i {m} {m'} {v} sent h) inv =
      let (q, (e, alone)) = asked owners s inv i m sent in
      let (more, r, right, short) =
        handle-Answered nid owners i s.vcm v m' inv.manager small q (rw (← e) h) in
      (more, (served-Inv owners s inv i m m' v more q sent alone right r, short))
