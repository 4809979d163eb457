-- ===== src/Threads/System.antt =====
-- The threads of all routers with the manager, interleaved in any order (router/lib/routing.cpp and
-- vcm/vcm.cpp).
use freelite.Base.{ℕ, zero, suc, ℤ, none, some, ◌≡◌, ◌≢◌, sym, ℕ_discrete}
use mathlib.Core.Path.{subst}
use freelite.Vcm
use freelite.Vcm.{Vcm, VcmMsg, handle}
use freelite.Routing
use freelite.Cluster.{update, update_self, update_other}
use freelite.Threads.Worker.{Host, empty, request, response, Pc, idle, Move, Fault}

pub record System : Type 0 where
  pub vcm : Vcm
  pub host : ℕ → Host
  pub pc : ℕ → Pc

-- Nothing has been called yet; router `i` is connected by the socket `fds i`.
abbrev pub start : (ℕ → ℤ) → System
start fds = record {
  vcm = Vcm.init;
  host = λ i. record {
    routing = record Routing.init { client_sock = fds i };
    wire = empty;
    holder = none;
  };
  pc = λ t. idle;
}

-- Thread `t` belongs to router `host_of t`, whose `router_nid` is `nid (host_of t)`.
module _ (nid : ℕ → ℤ) (host_of : ℕ → ℕ) where
  -- What holds of a thread that takes a step, and of the others beside it, holds of all after it.
  pub stepped-all :
      (Q : ℕ → Host → Pc → Type 0) (host : ℕ → Host) (pc : ℕ → Pc) (t : ℕ) (h : Host) (p : Pc)
      → Q t h p
      → ((u : ℕ) → t ≢ u → Q u (update host (host_of t) h (host_of u)) (pc u))
      → (u : ℕ) → Q u (update host (host_of t) h (host_of u)) (update pc t p u)
  stepped-all Q host pc t h p own others u = elim (ℕ_discrete t u) [
    | yes same ↦
        subst (λ w. Q w (update host (host_of t) h (host_of w)) (update pc t p w)) same
          (subst (λ g. Q t g (update pc t p t)) (sym (update_self host (host_of t) h))
            (subst (λ q. Q t h q) (sym (update_self pc t p)) own))
    | no other ↦
        subst (λ q. Q u (update host (host_of t) h (host_of u)) q)
          (sym (update_other pc t u p other)) (others u other)
  ]

  -- A thread acts, or a call of it fails.
  pub data Act (s : System) : System → Type 0 where
    moves :
        (t : ℕ) {h : Host} {p : Pc}
        → Move (nid (host_of t)) t (s.host (host_of t)) (s.pc t) h p
        → Act s (record s { host = update s.host (host_of t) h; pc = update s.pc t p })
    fails :
        (t : ℕ) {h : Host} {p : Pc}
        → Fault (s.host (host_of t)) (s.pc t) h p
        → Act s (record s { host = update s.host (host_of t) h; pc = update s.pc t p })

  -- The manager's thread for router `i` answers a request; `vcm_mutex` makes it one step.
  pub data Serve (s : System) : System → Type 0 where
    serves :
        (i : ℕ) {m m' : VcmMsg} {v : Vcm}
        → (s.host i).wire ≡ request m
        → handle m s.vcm ≡ some (m', v)
        → Serve s (record s {
          vcm = v;
          host = update s.host i (record (s.host i) { wire = response m' });
        })

  -- What is reached by any number of acts and `k` answers of the manager.
  pub data Reach (fds : ℕ → ℤ) : ℕ → System → Type 0 where
    begins : Reach fds zero (start fds)
    acts : {k : ℕ} {s t : System} → Reach fds k s → Act s t → Reach fds k t
    served : {k : ℕ} {s t : System} → Reach fds k s → Serve s t → Reach fds (suc k) t
