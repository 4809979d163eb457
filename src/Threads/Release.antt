-- ===== src/Threads/Release.antt =====
-- A router's lock is always given back: a call ends after a few steps of its own and at most one
-- answer of the manager (router/lib/routing.cpp).
use freelite.Base.{
  ℕ, suc, ◌<◌, ℤ, ℤ_discrete, minus_one, int_max, true, List, none, some, ◌≡◌, inl, inr, refl, sym,
  ap, ◌∙◌, Option-cases,
}
use mathlib.Core.Path.{subst}
use freelite.Vcm.{Vcm, VcmMsg, handle}
use freelite.Cluster.{update, update_self}
use freelite.Threads.Worker.{
  Query, joins, asks, Call, query, reads, empty, request, response, Wire, Host, Pc, idle, blocked,
  looking, asking, awaiting, answered, returning, critical, known, message, Move, hit, miss,
  miss_read, no_socket, send, recv, store, unlock,
}
use freelite.Threads.System.{System, Reach}
use freelite.Threads.Invariant.{Fits, Carries}
use freelite.Cluster.Ownership.{Owner}
use freelite.Threads.Invariant.Reachable.{Reach-Inv}
use freelite.Threads.Holder.{Reach-HolderInv}

handled :
    (n : ℤ) (q : Query) (v : Vcm)
    → (m' : VcmMsg) × (v' : Vcm) × (handle (message n q) v ≡ some (m', v'))
unfolding handle
handled n (joins cid) v = (_, _, refl)
handled n (asks vid) v = (_, _, refl)

module _ (nid : ℕ → ℤ) (host_of : ℕ → ℕ) (t : ℕ) where
  abbrev own : System → Host
  own s = s.host (host_of t)

  -- At most `n` steps lead to `s'`, all of them of thread `t` or of the manager.
  pub data Leads (s' : System) : ℕ → System → Type 0 where
    here : {n : ℕ} → Leads s' n s'
    by_thread :
        {n : ℕ} {s : System} {h : Host} {p : Pc}
        → Move (nid (host_of t)) t (s.host (host_of t)) (s.pc t) h p
        → Leads s' n (record s { host = update s.host (host_of t) h; pc = update s.pc t p })
        → Leads s' (suc n) s
    by_manager :
        {n : ℕ} {s : System} {m m' : VcmMsg} {v : Vcm}
        → (s.host (host_of t)).wire ≡ request m
        → handle m s.vcm ≡ some (m', v)
        → Leads s' n (record s {
          vcm = v;
          host = update s.host (host_of t) (record (s.host (host_of t)) { wire = response m' });
        })
        → Leads s' (suc n) s

  abbrev pub Releases : ℕ → System → Type 0
  Releases n s =
      (s' : System) × Leads s' n s × (((s'.host (host_of t)).holder ≡ none) × (s'.pc t ≡ idle))

  abbrev after : System → Host → Pc → System
  after s h p = record s { host = update s.host (host_of t) h; pc = update s.pc t p }

  by_step :
      (n : ℕ) (s : System) (p : Pc) {h' : Host} {p' : Pc}
      → s.pc t ≡ p
      → Move (nid (host_of t)) t (own s) p h' p'
      → Releases n (after s h' p')
      → Releases (suc n) s
  by_step n s p {h'} {p'} at_ move (s', leads, free) = (
    s',
    by_thread (subst (λ q. Move (nid (host_of t)) t (own s) q h' p') (sym at_) move) leads,
    free,
  )

  returning_ends :
      (k : ℕ) (s : System) (c : Call) (n : ℤ) → s.pc t ≡ returning c n → Releases (suc k) s
  returning_ends k s c n at_ = by_step k s (returning c n) at_ (unlock c n) (
    after s (record (own s) { holder = none }) idle,
    here,
    (
      ap (λ h. h.holder) (update_self s.host (host_of t) (record (own s) { holder = none })),
      update_self s.pc t idle,
    ),
  )

  answered_ends :
      (k : ℕ) (s : System) (q : Query) (id : ℤ) → s.pc t ≡ answered q id → Releases (suc (suc k)) s
  answered_ends k s q id at_ =
      by_step (suc k) s (answered q id) at_ (store q id)
        (returning_ends k _ (query q) id (update_self s.pc t _))

  arrived_ends :
      (k : ℕ) (s : System) (q : Query) (m : VcmMsg)
      → s.pc t ≡ awaiting q
      → (own s).wire ≡ response m
      → Releases (suc (suc (suc k))) s
  arrived_ends k s q m at_ arrived =
      by_step (suc (suc k)) s (awaiting q) at_ (recv q m arrived)
        (answered_ends k _ q m.id (update_self s.pc t _))

  sent_ends :
      (k : ℕ) (s : System) (q : Query)
      → s.pc t ≡ awaiting q
      → (own s).wire ≡ request (message (nid (host_of t)) q)
      → Releases (suc (suc (suc (suc k)))) s
  sent_ends k s q at_ sent =
      let (m', v, e) = handled (nid (host_of t)) q s.vcm in
      let (s', leads, free) =
        arrived_ends k
          (record s {
            vcm = v;
            host = update s.host (host_of t) (record (own s) { wire = response m' });
          })
          q m' at_ (ap (λ h. h.wire) (update_self s.host (host_of t) _)) in
      (s', by_manager sent e leads, free)

  asking_ends :
      (k : ℕ) (s : System) (q : Query)
      → s.pc t ≡ asking q
      → Releases (suc (suc (suc (suc (suc k))))) s
  asking_ends k s q at_ = elim (ℤ_discrete (own s).routing.client_sock minus_one) [
    | yes closed ↦
        by_step (suc (suc (suc (suc k)))) s (asking q) at_ (no_socket q closed)
          (returning_ends (suc (suc (suc k))) _ (query q) minus_one (update_self s.pc t _))
    | no open_ ↦ by_step (suc (suc (suc (suc k)))) s (asking q) at_ (send q open_) (
        sent_ends k _ q (update_self s.pc t _)
          (ap (λ h. h.wire) (update_self s.host (host_of t) _)))
  ]

  looking_ends : (s : System) (c : Call) → s.pc t ≡ looking c → Releases 6 s
  looking_ends s c at_ = elim (Option-cases (known c (own s).routing)) [
    | inl absent ↦ missed c at_ absent
    | inr (n, found) ↦
        by_step 5 s (looking c) at_ (hit c n found) (returning_ends 4 _ c n (update_self s.pc t _))
  ]
    where
      missed : (c : Call) → s.pc t ≡ looking c → known c (own s).routing ≡ none → Releases 6 s
      missed (query q) at_ absent =
          by_step 5 s (looking (query q)) at_ (miss q absent)
            (asking_ends 0 _ q (update_self s.pc t _))
      missed (reads cid) at_ absent =
          by_step 5 s (looking (reads cid)) at_ (miss_read cid absent)
            (returning_ends 4 _ (reads cid) minus_one (update_self s.pc t _))

  awaiting_ends :
      (s : System) (owners : List Owner) (q : Query) (w : Wire)
      → s.pc t ≡ awaiting q
      → (own s).wire ≡ w
      → Carries nid owners (host_of t) q w
      → Releases 6 s
  awaiting_ends s owners q (request m) at_ e carried = sent_ends 2 s q at_ (e ∙ ap request carried)
  awaiting_ends s owners q (response m) at_ e carried = arrived_ends 3 s q m at_ e
  awaiting_ends s owners q empty at_ e carried = absurd carried

  critical_ends :
      (s : System) (owners : List Owner) (p : Pc)
      → s.pc t ≡ p
      → critical p ≡ true
      → Fits nid owners (host_of t) (own s) p
      → Releases 6 s
  critical_ends s owners idle at_ c f = cc
  critical_ends s owners (blocked b) at_ c f = cc
  critical_ends s owners (looking b) at_ c f = looking_ends s b at_
  critical_ends s owners (asking q) at_ c f = asking_ends 1 s q at_
  critical_ends s owners (awaiting q) at_ c (open_, carried) =
      awaiting_ends s owners q (own s).wire at_ refl carried
  critical_ends s owners (answered q id) at_ c f = answered_ends 4 s q id at_
  critical_ends s owners (returning b n) at_ c f = returning_ends 5 s b n at_

module _ (nid : ℕ → ℤ) (host_of : ℕ → ℕ) (fds : ℕ → ℤ) where
  -- In every state that threads and failures lead to as in `mutual_exclusion`, the holder of a
  -- router's lock is a thread of that router, and at most six steps, of that thread and of the
  -- manager alone, lead to a state in which the lock is free and the thread is out of its call.
  pub lock_is_released :
      {k : ℕ} {s : System} (i t : ℕ)
      → Reach nid host_of fds k s
      → k < int_max
      → (s.host i).holder ≡ some t
      → (host_of t ≡ i) × Releases nid host_of t 6 s
  lock_is_released {s = s} i t r small held =
      let (owners, (inv, few)) = Reach-Inv nid host_of fds r small in
      let (e, c) = Reach-HolderInv nid host_of r i t held in
      (e, critical_ends nid host_of t s owners (s.pc t) refl c (inv.threads t c).1)
