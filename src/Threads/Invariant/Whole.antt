-- ===== src/Threads/Invariant/Whole.antt =====
-- What holds of the whole system between any two steps, and that the steps of threads keep it.
use freelite.Base.{ℕ, ℤ, ℕ_discrete, true, List, [], some, ◌≡◌, ◌≢◌, refl, sym, ap, ◌∙◌}
use mathlib.Core.Path.{subst}
use freelite.Base.UnorderedMap.{find}
use freelite.Vcm.Registry.{Refines, init-Refines}
use freelite.Cluster.{update, update-all, update_same, update_other}
use freelite.Cluster.Ownership.{Owner, nids_of}
use freelite.Threads.Worker.{Host, Pc, critical, Move}
use freelite.Threads.System.{System, stepped-all, start, Act, moves, fails}
use freelite.Threads.Invariant.{HostInv, ThreadInv, Fits}
use freelite.Threads.Invariant.Steps.{Both, Move-Both, Fault-Both, Move-other, Fault-other}

module _ (nid : ℕ → ℤ) (host_of : ℕ → ℕ) where
  pub record Inv (owners : List Owner) (s : System) : Type 0 where
    pub manager : Refines s.vcm (nids_of nid owners)
    pub hosts : (i : ℕ) → HostInv nid owners i (s.host i)
    pub threads : (t : ℕ) → ThreadInv nid owners (host_of t) t (s.host (host_of t)) (s.pc t)

  pub start-Inv : (fds : ℕ → ℤ) → Inv [] (start fds)
  unfolding find
  start-Inv fds = record {
    manager = init-Refines;
    hosts = λ i. record {
      truthful = record { joined = λ c v e. cc; cached = λ v n e. cc };
      sane = tt;
      quiet = λ _ _. refl;
    };
    threads = λ t e. cc;
  }

  -- A step of one thread that keeps its own part, and leaves its router alone while another thread
  -- holds the lock.
  module _ (owners : List Owner) (s : System) (t : ℕ) (h : Host) (p : Pc) (inv : Inv owners s)
      (alone : (u : ℕ)
        → t ≢ u
        → (s.host (host_of t)).holder ≡ some u
        → h ≡ s.host (host_of t)) where
    left_alone :
        (u : ℕ)
        → t ≢ u
        → (s.host (host_of u)).holder ≡ some u
        → update s.host (host_of t) h (host_of u) ≡ s.host (host_of u)
    left_alone u other held = elim (ℕ_discrete (host_of t) (host_of u)) [
      | yes near ↦
          update_same s.host _ _ h near
          ∙ alone u other (subst (λ j. (s.host j).holder ≡ some u) (sym near) held)
          ∙ ap s.host near
      | no far ↦ update_other s.host _ _ h far
    ]

    other-ThreadInv :
        (u : ℕ)
        → t ≢ u
        → ThreadInv nid owners (host_of u) u (update s.host (host_of t) h (host_of u)) (s.pc u)
    other-ThreadInv u other e =
        let held = inv.threads u e in
        subst (λ g. (g.holder ≡ some u) × Fits nid owners (host_of u) g (s.pc u))
          (sym (left_alone u other held.0)) held

    one-Inv :
        Both nid owners (host_of t) t h p
        → Inv owners (record s { host = update s.host (host_of t) h; pc = update s.pc t p })
    one-Inv (k, v) = record {
      manager = inv.manager;
      hosts = update-all (HostInv nid owners) s.host (host_of t) h k inv.hosts;
      threads =
          stepped-all nid host_of (λ u g q. ThreadInv nid owners (host_of u) u g q) s.host s.pc t h
            p v other-ThreadInv;
    }

  -- What a thread in the critical section relies on is left alone by the moves of the others.
  pub Move-keeps :
      (owners : List Owner) (s : System) (t u : ℕ) {h : Host} {p : Pc} (P : Host → Type 0)
      → Inv owners s
      → Move (nid (host_of t)) t (s.host (host_of t)) (s.pc t) h p
      → t ≢ u
      → critical (s.pc u) ≡ true
      → P (s.host (host_of u))
      → P (update s.host (host_of t) h (host_of u))
  Move-keeps owners s t u {h} {p} P inv move other c = subst P (
      sym (
        left_alone owners s t h p inv
          (λ w other held. Move-other nid owners (host_of t) t w other held move (inv.threads t)) u
          other (inv.threads u c).0))

  pub Act-Inv :
      (owners : List Owner) {s s' : System} → Act nid host_of s s' → Inv owners s → Inv owners s'
  Act-Inv owners {s} (moves t {h} {p} move) inv =
      one-Inv owners s t h p inv
        (λ u other held. Move-other nid owners (host_of t) t u other held move (inv.threads t))
        (Move-Both nid owners (host_of t) t move (inv.hosts (host_of t), inv.threads t))
  Act-Inv owners {s} (fails t {h} {p} fault) inv =
      one-Inv owners s t h p inv
        (λ u other held. Fault-other nid owners (host_of t) t u other held fault (inv.threads t))
        (Fault-Both nid owners (host_of t) t fault (inv.hosts (host_of t), inv.threads t))
