-- ===== src/Threads/Calm/Settled.antt =====
-- The variables of a router as they will be when the call under way has stored its answer.
use freelite.Base.{
  ℕ, ℤ, minus_one, Option, none, some, ◌≡◌, ◌≢◌, refl, sym, ap, ◌∙◌, true, ℕ_discrete,
}
use freelite.Vcm.{VcmMsg}
use freelite.Routing.{Routing}
use freelite.Cluster.{update, update_self, update_same, update_other}
use freelite.Threads.Worker.{
  Call, Query, query, reads, Wire, empty, request, response, Host, Pc, idle, blocked, looking,
  asking, awaiting, answered, returning, critical, remember, Move, call, lock, hit, miss, miss_read,
  no_socket, send, recv, store, unlock,
}

module _ (router_nid : ℤ) where
  received : Query → Wire → Routing → Routing
  received q (response m) r = remember router_nid q m.id r
  received q empty r = r
  received q (request m) r = r

  unfoldable pub settled : Pc → Host → Routing
  unfolding received
  settled (awaiting q) h = received q h.wire h.routing
  settled (answered q id) h = remember router_nid q id h.routing
  settled idle h = h.routing
  settled (blocked c) h = h.routing
  settled (looking c) h = h.routing
  settled (asking q) h = h.routing
  settled (returning c n) h = h.routing

  abbrev pub by_holder : (ℕ → Pc) → Host → Option ℕ → Routing
  by_holder pc h none = h.routing
  by_holder pc h (some t) = settled (pc t) h

  abbrev pub effective : (ℕ → Pc) → Host → Routing
  effective pc h = by_holder pc h h.holder

  pub awaiting-request :
      (q : Query) (h : Host) (m : VcmMsg) → h.wire ≡ request m → settled (awaiting q) h ≡ h.routing
  unfolding settled
  awaiting-request q h m sent = rw sent refl

  pub awaiting-response :
      (q : Query) (h : Host) (m : VcmMsg)
      → settled (awaiting q) (record h { wire = response m }) ≡ remember router_nid q m.id h.routing
  unfolding settled
  awaiting-response q h m = refl

  pub returning-settled : (c : Call) (n : ℤ) (h : Host) → settled (returning c n) h ≡ h.routing
  unfolding settled
  returning-settled c n h = refl

  pub effective-held :
      (pc : ℕ → Pc) (h : Host) (t : ℕ) (p : Pc)
      → h.holder ≡ some t
      → pc t ≡ p
      → effective pc h ≡ settled p h
  effective-held pc h t p held at_ = ap (by_holder pc h) held ∙ ap (λ q. settled q h) at_

  -- A move changes neither its own router nor, by what it does to the thread, another one.
  module _ (t : ℕ) (pc : ℕ → Pc) where
    same_host :
        (h : Host) (p' : Pc) (x : Option ℕ)
        → settled p' h ≡ settled (pc t) h
        → by_holder (update pc t p') h x ≡ by_holder pc h x
    same_host h p' none e = refl
    same_host h p' (some u) e = elim (ℕ_discrete t u) [
      | yes same ↦
          ap (λ q. settled q h) (update_same pc t u p' same) ∙ e ∙ ap (λ w. settled (pc w) h) same
      | no other ↦ ap (λ q. settled q h) (update_other pc t u p' other)
    ]

    held_host :
        (h h' : Host) (p' : Pc)
        → h.holder ≡ some t
        → h'.holder ≡ some t
        → settled p' h' ≡ settled (pc t) h
        → effective (update pc t p') h' ≡ effective pc h
    held_host h h' p' held held' e =
        ap (by_holder (update pc t p') h') held'
        ∙ ap (λ q. settled q h') (update_self pc t p')
        ∙ e
        ∙ sym (ap (by_holder pc h) held)

    pub Move-effective :
        {h h' : Host} {p p' : Pc}
        → pc t ≡ p
        → (critical p ≡ true → h.holder ≡ some t)
        → Move router_nid t h p h' p'
        → effective (update pc t p') h' ≡ effective pc h
    unfolding settled
    Move-effective {h} at_ held (call c) = same_host h (blocked c) h.holder (rw at_ refl)
    Move-effective {h} at_ held (lock c free) =
        ap (λ q. settled q (record h { holder = some t })) (update_self pc t (looking c))
        ∙ sym (ap (by_holder pc h) free)
    Move-effective {h} at_ held (hit c n found) = same_host h (returning c n) h.holder (rw at_ refl)
    Move-effective {h} at_ held (miss q absent) = same_host h (asking q) h.holder (rw at_ refl)
    Move-effective {h} at_ held (miss_read cid absent) =
        same_host h (returning (reads cid) minus_one) h.holder (rw at_ refl)
    Move-effective {h} at_ held (no_socket q closed) =
        same_host h (returning (query q) minus_one) h.holder (rw at_ refl)
    Move-effective {h} at_ held (send q open_) =
        held_host h _ (awaiting q) (held refl) (held refl) (rw at_ refl)
    Move-effective {h} at_ held (recv q m arrived) =
        held_host h _ (answered q m.id) (held refl) (held refl) (rw (at_, arrived) refl)
    Move-effective {h} at_ held (store q id) =
        held_host h _ (returning (query q) id) (held refl) (held refl) (rw at_ refl)
    Move-effective {h} at_ held (unlock c n) =
        ap (λ q. settled q h) (sym at_) ∙ sym (ap (by_holder pc h) (held refl))

  pub other-effective :
      (t : ℕ) (pc : ℕ → Pc) (p' : Pc) (h : Host)
      → ((u : ℕ) → h.holder ≡ some u → t ≢ u)
      → effective (update pc t p') h ≡ effective pc h
  other-effective t pc p' h apart = at_holder h.holder refl
    where
      at_holder : (x : Option ℕ) → h.holder ≡ x → by_holder (update pc t p') h x ≡ by_holder pc h x
      at_holder none e = refl
      at_holder (some u) e = ap (λ q. settled q h) (update_other pc t u p' (apart u e))
