-- ===== src/Threads/Holder.antt =====
-- Who holds the lock of a router (router/lib/routing.cpp): a thread of that router that stands between
-- the `lock_guard` and the return of a call.
use freelite.Base.{
  ℕ, ℤ, true, some, ◌≡◌, ◌⊎◌, inl, inr, refl, sym, ap, ◌∙◌, ℕ_discrete, some_injective,
}
use mathlib.Core.Path.{subst}
use freelite.Vcm.{Vcm}
use freelite.Cluster.{update, update_same, update_other}
use freelite.Threads.Worker.{
  Wire, response, Host, Pc, critical, Move, call, lock, hit, miss, miss_read, no_socket, send, recv,
  store, unlock, Fault, send_fails, recv_fails,
}
use freelite.Threads.System.{System, moves, fails, serves, Reach, begins, acts, served}

-- After a step of thread `t`, the holder of the lock is the old one or `t` itself.
abbrev Holds : ℕ → Host → Pc → Host → Pc → ℕ → Type 0
Holds t h p h' p' u =
    (u ≡ t) × (critical p' ≡ true) ⊎ (h.holder ≡ some u) × (critical p ≡ true → critical p' ≡ true)

Move-Holds :
    {n : ℤ} {t : ℕ} {h h' : Host} {p p' : Pc} (u : ℕ)
    → Move n t h p h' p'
    → h'.holder ≡ some u
    → Holds t h p h' p' u
Move-Holds u (call c) held = inr (held, λ e. cc)
Move-Holds u (lock c free) held = inl (sym (some_injective held), refl)
Move-Holds u (hit c n found) held = inr (held, λ _. refl)
Move-Holds u (miss q absent) held = inr (held, λ _. refl)
Move-Holds u (miss_read cid absent) held = inr (held, λ _. refl)
Move-Holds u (no_socket q closed) held = inr (held, λ _. refl)
Move-Holds u (send q open_) held = inr (held, λ _. refl)
Move-Holds u (recv q m arrived) held = inr (held, λ _. refl)
Move-Holds u (store q id) held = inr (held, λ _. refl)
Move-Holds u (unlock c n) held = cc

Fault-Holds :
    {t : ℕ} {h h' : Host} {p p' : Pc} (u : ℕ)
    → Fault h p h' p'
    → h'.holder ≡ some u
    → Holds t h p h' p' u
Fault-Holds u (send_fails q open_) held = inr (held, λ _. refl)
Fault-Holds u (recv_fails q) held = inr (held, λ _. refl)

module _ (nid : ℕ → ℤ) (host_of : ℕ → ℕ) where
  -- The thread that holds the lock of a router belongs to it and is in the critical section.
  abbrev pub HolderInv : System → Type 0
  HolderInv s =
      (i u : ℕ) → (s.host i).holder ≡ some u → (host_of u ≡ i) × (critical (s.pc u) ≡ true)

  act-HolderInv :
      (s : System) (t : ℕ) (h : Host) (p : Pc)
      → ((u : ℕ) → h.holder ≡ some u → Holds t (s.host (host_of t)) (s.pc t) h p u)
      → HolderInv s
      → HolderInv (record s { host = update s.host (host_of t) h; pc = update s.pc t p })
  act-HolderInv s t h p step inv i u held = elim (ℕ_discrete (host_of t) i) [
    | yes near ↦ at_host near
    | no far ↦
        let (e, c) =
          inv i u (sym (ap (λ g. g.holder) (update_other s.host (host_of t) i h far)) ∙ held) in
        (e, ap critical (update_other s.pc t u p (λ same. far (ap host_of same ∙ e))) ∙ c)
  ]
    where
      at_host : host_of t ≡ i → (host_of u ≡ i) × (critical (update s.pc t p u) ≡ true)
      at_host near =
          elim (step u
            (sym (ap (λ g. g.holder) (update_same s.host (host_of t) i h near)) ∙ held)) [
              | inl (same, c) ↦
                  (ap host_of same ∙ near, ap critical (update_same s.pc t u p (sym same)) ∙ c)
              | inr (old, keep) ↦
                  let (e, c) = inv i u (subst (λ j. (s.host j).holder ≡ some u) near old) in
                  elim (ℕ_discrete t u) [
                    | yes same ↦ (
                      e,
                      ap critical (update_same s.pc t u p same)
                          ∙ keep (subst (λ w. critical (s.pc w) ≡ true) (sym same) c),
                    )
                    | no other ↦ (e, ap critical (update_other s.pc t u p other) ∙ c)
                  ]
            ]

  serve-HolderInv :
      (s : System) (j : ℕ) (w : Wire) (v : Vcm)
      → HolderInv s
      → HolderInv (record s { vcm = v; host = update s.host j (record (s.host j) { wire = w }) })
  serve-HolderInv s j w v inv i u held = inv i u (same_holder ∙ held)
    where
      same_holder : (s.host i).holder ≡ (update s.host j (record (s.host j) { wire = w }) i).holder
      same_holder = elim (ℕ_discrete j i) [
        | yes near ↦
            ap (λ g. (s.host g).holder) (sym near)
            ∙ sym (ap (λ g. g.holder) (update_same s.host j i _ near))
        | no far ↦ sym (ap (λ g. g.holder) (update_other s.host j i _ far))
      ]

  pub Reach-HolderInv : {fds : ℕ → ℤ} {k : ℕ} {s : System} → Reach nid host_of fds k s → HolderInv s
  Reach-HolderInv begins = λ i u held. cc
  Reach-HolderInv (acts {s} r (moves t {h} {p} move)) =
      act-HolderInv s t h p (λ u held. Move-Holds u move held) (Reach-HolderInv r)
  Reach-HolderInv (acts {s} r (fails t {h} {p} fault)) =
      act-HolderInv s t h p (λ u held. Fault-Holds u fault held) (Reach-HolderInv r)
  Reach-HolderInv (served {s} r (serves j {m} {m'} {v} sent h)) =
      serve-HolderInv s j (response m') v (Reach-HolderInv r)
