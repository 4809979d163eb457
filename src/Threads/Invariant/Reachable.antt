-- ===== src/Threads/Invariant/Reachable.antt =====
-- What holds of the whole system in every state that it can reach.
use freelite.Base.{ℕ, ◌≤◌, ◌<◌, ℤ, int_max, List, [], ◌++◌, arith, length, length-append}
use freelite.Cluster.Ownership.{Owner}
use freelite.Threads.System.{System, Reach, begins, acts, served}
use freelite.Threads.Invariant.Whole.{Inv, start-Inv, Act-Inv}
use freelite.Threads.Invariant.Answering.{Serve-Inv}

module _ (nid : ℕ → ℤ) (host_of : ℕ → ℕ) where
  -- After `k` answers the registry holds at most `k` applications, and all of the above holds.
  pub Reach-Inv :
      (fds : ℕ → ℤ) {k : ℕ} {s : System}
      → Reach nid host_of fds k s
      → k < int_max
      → (owners : List Owner) × (Inv nid host_of owners s × (length owners ≤ k))
  Reach-Inv fds begins small = ([], (start-Inv nid host_of fds, omega arith))
  Reach-Inv fds (acts r a) small =
      let (owners, (inv, short)) = Reach-Inv fds r small in
      (owners, (Act-Inv nid host_of owners a inv, short))
  Reach-Inv fds (served {k} r a) small =
      let (owners, (inv, short)) = Reach-Inv fds r (omega arith) in
      let (more, (inv', one)) = Serve-Inv nid host_of owners (omega arith) a inv in
      (owners ++ more, (inv', omega (arith, length-append owners more)))
