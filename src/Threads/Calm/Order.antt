-- ===== src/Threads/Calm/Order.antt =====
-- Without failures the interleaved calls are worth one call after another (router/lib/routing.cpp,
-- vcm/vcm.cpp): each takes place where the manager answers it.
use freelite.Base.{
  ℕ, ℤ, minus_one, List, [], ◌∷◌, ◌++◌, ◌<◌, int_max, length, length-append, ◌∙◌, ap, some, none,
  ◌≡◌, ◌≢◌, refl, arith, true,
}
use mathlib.Core.Path.{subst}
use mathlib.Core.List.{append-nil, append_assoc}
use freelite.Vcm
use freelite.Vcm.{Vcm, VcmMsg, handle}
use freelite.Cluster.Wire.{Wire, wire}
use freelite.Cluster.{Cluster, Event, start, happen, history, runs-append, update}
use freelite.Threads.Invariant.Reachable.{Reach-Inv}
use freelite.Threads.Holder.{Reach-HolderInv}
use freelite.Threads.System.{System, Serve, serves}
use freelite.Threads.Calm.{
  Calm, calm_start, moved, answers, Calm-Reach, Onward, stays, moved_on, answers_on, Onward-Calm,
  Onward-grows,
}
use freelite.Threads.Calm.Asking.{Asks, Calm-CalmInv}
use freelite.Threads.Calm.Settled.{by_holder, effective-held, returning-settled}
use freelite.Threads.Worker.{Host, Pc, Move, returning, Query, query, critical, known}
use freelite.Threads.Calm.Matches.{Matches, moved-Matches, served-Matches}

module _ (nid : ℕ → ℤ) (host_of : ℕ → ℕ) (fds : ℕ → ℤ) (up : (i : ℕ) → fds i ≢ minus_one) where
  abbrev pub first : Cluster Wire
  first = start (Vcm.init, none) fds

  -- The calls `es` one after another leave the manager and the routers as they are in `s`, the
  -- routers whose lock is free altogether, and the others as far as they return something.
  pub record ReachedBy (s : System) (es : List Event) : Type 0 where
    pub manager : (history wire nid first es).world ≡ (s.vcm, none)
    pub routers :
        (i : ℕ)
        → (s.host i).holder ≡ none
        → (history wire nid first es).routing i ≡ (s.host i).routing
    pub results :
        (t : ℕ) (q : Query) (n : ℤ)
        → s.pc t ≡ returning (query q) n
        → known (query q) ((history wire nid first es).routing (host_of t)) ≡ some n

  abbrev Fits : System → List Event → Type 0
  Fits s es = Matches nid host_of s (history wire nid first es)

  module _ {k : ℕ} {s : System} (small : k < int_max) (c : Calm nid host_of fds k s) where
    Move-Fits :
        (t : ℕ) {h : Host} {p : Pc} (es : List Event)
        → Move (nid (host_of t)) t (s.host (host_of t)) (s.pc t) h p
        → Fits s es
        → Fits (record s { host = update s.host (host_of t) h; pc = update s.pc t p }) es
    Move-Fits t es move e =
        let r = Calm-Reach nid host_of fds c in
        let (owners, (inv, _)) = Reach-Inv nid host_of fds r small in
        moved-Matches nid host_of owners t inv (Reach-HolderInv nid host_of r) move e

    Serve-Fits :
        {s' : System} (es : List Event)
        → Serve nid host_of s s'
        → Fits s es
        → (e : Event) × Fits s' (es ++ e ∷ [])
    unfolding history
    Serve-Fits es (serves i {m} {m'} {v} sent h) e =
        let r = Calm-Reach nid host_of fds c in
        let (owners, (inv, _)) = Reach-Inv nid host_of fds r small in
        let (q, e') =
          served-Matches nid host_of s (history wire nid first es) owners i m m' v inv
            (Reach-HolderInv nid host_of r) (Calm-CalmInv nid host_of fds up small c) sent h e in
        let event : Event = record { router = i; call = q } in
        (event, rw (runs-append (happen wire nid) first es (event ∷ [])) e')

    Fits-ReachedBy : (es : List Event) → Fits s es → ReachedBy s es
    Fits-ReachedBy es e = record {
      manager = e.manager;
      routers = λ i free. e.routers i ∙ ap (by_holder (nid i) s.pc (s.host i)) free;
      results = λ t q n at_.
          let r = Calm-Reach nid host_of fds c in
          let (owners, (inv, _)) = Reach-Inv nid host_of fds r small in
          let c_inv = Calm-CalmInv nid host_of fds up small c in
          let i = host_of t in
          let inside : critical (s.pc t) ≡ true = ap critical at_ in
          ap (known (query q)) (
            e.routers i
            ∙ effective-held (nid i) s.pc (s.host i) t (returning (query q) n)
                (inv.threads t inside).0 at_
            ∙ returning-settled (nid i) (query q) n (s.host i))
          ∙ subst (λ p. Asks p (s.host i)) at_ (c_inv.asks t inside);
    }

  Calm-Fits :
      {k : ℕ} {s : System}
      → k < int_max
      → Calm nid host_of fds k s
      → (es : List Event) × ((length es ≡ k) × Fits s es)
  unfolding history
  Calm-Fits small calm_start = ([], (refl, record { manager = refl; routers = λ i. refl }))
  Calm-Fits small (moved {s = s} t c move) =
      let (es, (counted, e)) = Calm-Fits small c in (es, (counted, Move-Fits small c t es move e))
  Calm-Fits small (answers {s = s} c serve) =
      let (es, (counted, e)) = Calm-Fits (omega arith) c in
      let (event, e') = Serve-Fits (omega arith) c es serve e in
      (es ++ event ∷ [], (omega (arith, length-append es (event ∷ [])), e'))

  Onward-Fits :
      {k : ℕ} {s : System} {k' : ℕ} {s' : System} (es : List Event)
      → k' < int_max
      → Calm nid host_of fds k s
      → Onward nid host_of fds k s k' s'
      → Fits s es
      → (more : List Event) × Fits s' (es ++ more)
  Onward-Fits es small c stays e = ([], rw (append-nil es) e)
  Onward-Fits es small c (moved_on t o move) e =
      let (more, f) = Onward-Fits es small c o e in
      (more, Move-Fits small (Onward-Calm nid host_of fds c o) t (es ++ more) move f)
  Onward-Fits es small c (answers_on o serve) e =
      let (more, f) = Onward-Fits es (omega arith) c o e in
      let (event, g) =
        Serve-Fits (omega arith) (Onward-Calm nid host_of fds c o) (es ++ more) serve f in
      (more ++ event ∷ [], rw (← append_assoc es more (event ∷ [])) g)

  -- All routers are connected, no call of the operating system fails, and the manager has given
  -- `k` answers, later `k'`, fewer than 2 ^ 31 - 1, to threads that interleave in any order. Then `k`
  -- calls, each made whole one after another, lead to the state of the manager and to the variables
  -- of every router whose lock is free; and what a thread returns from `vcm_join` or `vcm_vid_nid` is
  -- what its router's variables hold there. Of what comes later the same holds, with further calls
  -- after those `k`.
  pub interleavings_are_sequential :
      {k : ℕ} {s : System} {k' : ℕ} {s' : System}
      → k' < int_max
      → Calm nid host_of fds k s
      → Onward nid host_of fds k s k' s'
      → (es : List Event) × (more : List Event) × (length es ≡ k)
        × ReachedBy s es
        × ReachedBy s' (es ++ more)
  interleavings_are_sequential small c o =
      let grows = Onward-grows nid host_of fds o in
      let before = Calm-Fits (omega (arith, grows)) c in
      let after = Onward-Fits before.0 small c o before.1.1 in
      (
        before.0,
        after.0,
        before.1.0,
        Fits-ReachedBy (omega (arith, grows)) c before.0 before.1.1,
        Fits-ReachedBy small (Onward-Calm nid host_of fds c o) (before.0 ++ after.0) after.1,
      )
