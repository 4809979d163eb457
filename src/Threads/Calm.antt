-- ===== src/Threads/Calm.antt =====
-- Runs in which no call of the operating system fails, and what holds in them besides.
pub mod Settled
pub mod Asking
pub mod Matches
pub mod Order
use freelite.Base.{ℕ, suc, zero, ℤ, minus_one, ◌≢◌, some, none, ◌≡◌, refl, true, ◌≤◌, arith}
use freelite.Vcm.{Vcm, VcmMsg, handle}
use freelite.Cluster.{update}
use freelite.Threads.Worker.{
  Query, query, Host, Wire, response, request, Pc, asking, awaiting, answered, returning, critical,
  known, Move, call, lock, hit, miss, miss_read, no_socket, send, recv, store, unlock,
}
use freelite.Threads.System.{System, start, Reach, begins, acts, served, moves, Serve}

module _ (nid : ℕ → ℤ) (host_of : ℕ → ℕ) (fds : ℕ → ℤ) where
  -- `Reach` without the faults.
  pub data Calm : ℕ → System → Type 0 where
    calm_start : Calm zero (start fds)
    moved :
        {k : ℕ} {s : System} (t : ℕ) {h : Host} {p : Pc}
        → Calm k s
        → Move (nid (host_of t)) t (s.host (host_of t)) (s.pc t) h p
        → Calm k (record s { host = update s.host (host_of t) h; pc = update s.pc t p })
    answers : {k : ℕ} {s t : System} → Calm k s → Serve nid host_of s t → Calm (suc k) t

  pub Calm-Reach : {k : ℕ} {s : System} → Calm k s → Reach nid host_of fds k s
  Calm-Reach calm_start = begins
  Calm-Reach (moved t c move) = acts (Calm-Reach c) (moves t move)
  Calm-Reach (answers c serve) = served (Calm-Reach c) serve

  -- What a run comes to from there.
  pub data Onward (k : ℕ) (s : System) : ℕ → System → Type 0 where
    stays : Onward k s k s
    moved_on :
        {k' : ℕ} {s' : System} (t : ℕ) {h : Host} {p : Pc}
        → Onward k s k' s'
        → Move (nid (host_of t)) t (s'.host (host_of t)) (s'.pc t) h p
        → Onward k s k' (record s' { host = update s'.host (host_of t) h; pc = update s'.pc t p })
    answers_on :
        {k' : ℕ} {s' t : System} → Onward k s k' s' → Serve nid host_of s' t → Onward k s (suc k') t

  pub Onward-Calm :
      {k : ℕ} {s : System} {k' : ℕ} {s' : System} → Calm k s → Onward k s k' s' → Calm k' s'
  Onward-Calm c stays = c
  Onward-Calm c (moved_on t o move) = moved t (Onward-Calm c o) move
  Onward-Calm c (answers_on o serve) = answers (Onward-Calm c o) serve

  pub Onward-grows : {k : ℕ} {s : System} {k' : ℕ} {s' : System} → Onward k s k' s' → k ≤ k'
  Onward-grows stays = omega arith
  Onward-grows (moved_on t o move) = Onward-grows o
  Onward-grows (answers_on o serve) = let h = Onward-grows o in omega arith
