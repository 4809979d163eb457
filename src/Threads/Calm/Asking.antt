-- ===== src/Threads/Calm/Asking.antt =====
-- Without failures the connections stand, and a query is sent only where the router has no answer.
use freelite.Base.{
  ℕ, ◌<◌, int_max, ℤ, minus_one, Bytes_discrete, ℤ_discrete, List, some, none, ◌≡◌, ◌≢◌, refl, sym,
  ◌∙◌, true, arith, ℕ_discrete,
}
use mathlib.Core.Path.{subst}
use freelite.Base.UnorderedMap.{find-insert_self}
use freelite.Vcm.{Vcm}
use freelite.Cluster.{update, update-all, update_same, update_other}
use freelite.Cluster.Ownership.{Owner}
use freelite.Threads.Worker.{
  joins, asks, query, reads, Wire, response, Host, Pc, idle, blocked, looking, asking, awaiting,
  answered, returning, critical, known, Move, call, lock, hit, miss, miss_read, no_socket, send,
  recv, store, unlock,
}
use freelite.Threads.System.{System, stepped-all, serves}
use freelite.Threads.Invariant.Whole.{Inv, Move-keeps}
use freelite.Threads.Invariant.Reachable.{Reach-Inv}
use freelite.Threads.Calm.{Calm, calm_start, moved, answers, Calm-Reach}

-- What a thread in the critical section knows of the maps.
abbrev pub Asks : Pc → Host → Type 0
Asks (asking q) h = known (query q) h.routing ≡ none
Asks (awaiting q) h = known (query q) h.routing ≡ none
Asks (answered q id) h = known (query q) h.routing ≡ none
Asks (returning (query q) n) h = known (query q) h.routing ≡ some n
Asks _ h = Unit

module _ {n : ℤ} {t : ℕ} where
  Move-sock :
      {h h' : Host} {p p' : Pc}
      → Move n t h p h' p'
      → h'.routing.client_sock ≡ h.routing.client_sock
  Move-sock (call c) = refl
  Move-sock (lock c free) = refl
  Move-sock (hit c v found) = refl
  Move-sock (miss q absent) = refl
  Move-sock (miss_read cid absent) = refl
  Move-sock (no_socket q closed) = refl
  Move-sock (send q open_) = refl
  Move-sock (recv q m arrived) = refl
  Move-sock (store (joins cid) id) = refl
  Move-sock (store (asks vid) id) = refl
  Move-sock (unlock c v) = refl

  Move-Asks :
      {h h' : Host} {p p' : Pc}
      → h.routing.client_sock ≢ minus_one
      → Move n t h p h' p'
      → (critical p ≡ true → Asks p h)
      → critical p' ≡ true
      → Asks p' h'
  Move-Asks open_ (call c) a e = cc
  Move-Asks open_ (lock c free) a e = tt
  Move-Asks open_ (hit (query q) v found) a e = found
  Move-Asks open_ (hit (reads cid) v found) a e = tt
  Move-Asks open_ (miss q absent) a e = absent
  Move-Asks open_ (miss_read cid absent) a e = tt
  Move-Asks open_ (no_socket q closed) a e = absurd (open_ closed)
  Move-Asks open_ (send q _) a e = a refl
  Move-Asks open_ (recv q m arrived) a e = a refl
  Move-Asks {h} open_ (store (joins cid) id) a e =
      find-insert_self Bytes_discrete cid id h.routing.cid_vid_map (a refl)
  Move-Asks {h} open_ (store (asks vid) id) a e =
      find-insert_self ℤ_discrete vid id h.routing.vid_nid_map_cache (a refl)
  Move-Asks open_ (unlock c v) a e = cc

module _ (nid : ℕ → ℤ) (host_of : ℕ → ℕ) where
  pub record CalmInv (s : System) : Type 0 where
    pub connected : (i : ℕ) → (s.host i).routing.client_sock ≢ minus_one
    pub asks : (t : ℕ) → critical (s.pc t) ≡ true → Asks (s.pc t) (s.host (host_of t))

  moved-CalmInv :
      (s : System) (t : ℕ) {h : Host} {p : Pc} (owners : List Owner)
      → Inv nid host_of owners s
      → CalmInv s
      → Move (nid (host_of t)) t (s.host (host_of t)) (s.pc t) h p
      → CalmInv (record s { host = update s.host (host_of t) h; pc = update s.pc t p })
  moved-CalmInv s t {h} {p} owners inv c move = record {
    connected =
        update-all (λ i g. g.routing.client_sock ≢ minus_one) s.host (host_of t) h
          (λ e. c.connected (host_of t) (sym (Move-sock move) ∙ e)) c.connected;
    asks =
        stepped-all nid host_of (λ u g q. critical q ≡ true → Asks q g) s.host s.pc t h p
          (Move-Asks (c.connected (host_of t)) move (c.asks t))
          (λ u other e.
            Move-keeps nid host_of owners s t u (λ g. Asks (s.pc u) g) inv move other e
              (c.asks u e));
  }

  served-CalmInv :
      (s : System) (i : ℕ) (w : Wire) (v : Vcm)
      → CalmInv s
      → CalmInv (record s { vcm = v; host = update s.host i (record (s.host i) { wire = w }) })
  served-CalmInv s i w v c = record {
    connected =
        update-all (λ j g. g.routing.client_sock ≢ minus_one) s.host i
          (record (s.host i) { wire = w }) (c.connected i) c.connected;
    asks = λ u e. elim (ℕ_discrete i (host_of u)) [
      | yes near ↦
          subst (λ g. Asks (s.pc u) g) (sym (update_same s.host i (host_of u) _ near))
            (same_routing (s.pc u) (s.host i) w
              (subst (λ j. Asks (s.pc u) (s.host j)) (sym near) (c.asks u e)))
      | no far ↦
          subst (λ g. Asks (s.pc u) g) (sym (update_other s.host i (host_of u) _ far)) (c.asks u e)
    ];
  }
    where
      same_routing : (p : Pc) (h : Host) (w : Wire) → Asks p h → Asks p (record h { wire = w })
      same_routing (asking q) h w a = a
      same_routing (awaiting q) h w a = a
      same_routing (answered q id) h w a = a
      same_routing (returning (query q) n) h w a = a
      same_routing (returning (reads cid) n) h w a = a
      same_routing idle h w a = a
      same_routing (blocked b) h w a = a
      same_routing (looking b) h w a = a

  pub Calm-CalmInv :
      (fds : ℕ → ℤ) {k : ℕ} {s : System}
      → ((i : ℕ) → fds i ≢ minus_one)
      → k < int_max
      → Calm nid host_of fds k s
      → CalmInv s
  Calm-CalmInv fds up small calm_start = record { connected = up; asks = λ t e. cc }
  Calm-CalmInv fds up small (moved {s = s} t c move) =
      let (owners, (inv, few)) = Reach-Inv nid host_of fds (Calm-Reach nid host_of fds c) small in
      moved-CalmInv s t owners inv (Calm-CalmInv fds up small c) move
  Calm-CalmInv fds up small (answers {s = s} c (serves i {m} {m'} {v} sent h)) =
      served-CalmInv s i (response m') v (Calm-CalmInv fds up (omega arith) c)
