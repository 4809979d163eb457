-- ===== src/Latency/Phases.antt =====
-- How far the threads of client/test_latency.c are, all together: the barrier keeps them in step.
use freelite.Base.{
  All-append, ℕ, pos, inl, ◌<◌, ℤ, List, [], ◌∷◌, ◌++◌, All, ◌≡◌, ◌≢◌, refl, sym, ap, ◌∙◌,
  ℕ_discrete, to_u32,
}
use mathlib.Core.Path.{subst}
use freelite.Cluster.{update, update-all, update-others, update_self, update_other}
use freelite.Latency.Thread.{
  Wait, first, second, third, Pc, starting, failed, waiting, allocating, writing, reading, freeing,
  exited, Event, allocates, Move, alloc_ok, alloc_fails, alloc_remote, write, write_rate, written,
  read, read_rate, read_all, free, after, serial_after,
}
use freelite.Latency.System.{System, acts, passes, Reach, begins, later}
use freelite.Latency.Events.{
  Unallocated, Uses, allocations, allocations-Unallocated, Unallocated-Uses, to_u32-zero,
  allocations-append,
}

-- Before the first barrier, between the first and the second, and from the first one on.
abbrev pub Early : Pc → Type 0
Early starting = Unit
Early failed = Unit
Early (waiting first) = Unit
Early _ = ⊥

abbrev pub InWrites : Pc → Type 0
InWrites (writing i j) = Unit
InWrites (waiting second) = Unit
InWrites _ = ⊥

abbrev pub Late : Pc → Type 0
Late starting = ⊥
Late failed = ⊥
Late (waiting first) = ⊥
Late allocating = ⊥
Late _ = Unit

InWrites-Late : (p : Pc) → InWrites p → Late p
InWrites-Late starting h = absurd h
InWrites-Late failed h = absurd h
InWrites-Late (waiting first) h = absurd h
InWrites-Late (waiting second) h = tt
InWrites-Late (waiting third) h = tt
InWrites-Late allocating h = absurd h
InWrites-Late (writing i j) h = tt
InWrites-Late (reading i j) h = tt
InWrites-Late freeing h = tt
InWrites-Late exited h = tt

module _ (n : ℕ) where
  pub data Phase (s : System) : Type 0 where
    early : s.test_key ≡ pos 0 → s.log ≡ [] → ((t : ℕ) → t < n → Early (s.pc t)) → Phase s
    pending :
        (a : ℕ)
        → a < n
        → s.pc a ≡ allocating
        → s.test_key ≡ pos 0
        → All Unallocated s.log
        → ((t : ℕ) → a ≢ t → t < n → InWrites (s.pc t))
        → Phase s
    keyed :
        (v : ℤ)
        → s.test_key ≡ v
        → allocations s.log ≡ v ∷ []
        → All (Uses v) s.log
        → ((t : ℕ) → t < n → Late (s.pc t))
        → Phase s

  Move-Early :
      {t : ℕ} {key key' : ℤ} {es : List Event} {p p' : Pc}
      → Move n t key p es key' p'
      → Early p
      → (es ≡ []) × (key' ≡ key) × Early p'
  Move-Early alloc_ok e = (refl, refl, tt)
  Move-Early alloc_fails e = (refl, refl, tt)
  Move-Early (alloc_remote v) e = absurd e
  Move-Early (write i j size found more) e = absurd e
  Move-Early (write_rate i j size found over) e = absurd e
  Move-Early (written i j over) e = absurd e
  Move-Early (read i j size found more) e = absurd e
  Move-Early (read_rate i j size found over) e = absurd e
  Move-Early (read_all i j over) e = absurd e
  Move-Early free e = absurd e

  Move-InWrites :
      {t : ℕ} {key key' : ℤ} {es : List Event} {p p' : Pc}
      → Move n t key p es key' p'
      → key ≡ pos 0
      → InWrites p
      → InWrites p' × (key' ≡ key) × All Unallocated es
  Move-InWrites alloc_ok zero_ e = absurd e
  Move-InWrites alloc_fails zero_ e = absurd e
  Move-InWrites (alloc_remote v) zero_ e = absurd e
  Move-InWrites (write i j size found more) zero_ e =
      (tt, refl, (ap to_u32 zero_ ∙ to_u32-zero, tt))
  Move-InWrites (write_rate i j size found over) zero_ e = (tt, refl, (tt, tt))
  Move-InWrites (written i j over) zero_ e = (tt, refl, tt)
  Move-InWrites (read i j size found more) zero_ e = absurd e
  Move-InWrites (read_rate i j size found over) zero_ e = absurd e
  Move-InWrites (read_all i j over) zero_ e = absurd e
  Move-InWrites free zero_ e = absurd e

  Move-allocating :
      {t : ℕ} {key key' : ℤ} {es : List Event} {p p' : Pc}
      → Move n t key p es key' p'
      → p ≡ allocating
      → (es ≡ allocates key' ∷ []) × (p' ≡ writing 0 0)
  Move-allocating alloc_ok e = cc
  Move-allocating alloc_fails e = cc
  Move-allocating (alloc_remote v) e = (refl, refl)
  Move-allocating (write i j size found more) e = cc
  Move-allocating (write_rate i j size found over) e = cc
  Move-allocating (written i j over) e = cc
  Move-allocating (read i j size found more) e = cc
  Move-allocating (read_rate i j size found over) e = cc
  Move-allocating (read_all i j over) e = cc
  Move-allocating free e = cc

  Move-Late :
      {t : ℕ} {key key' : ℤ} {es : List Event} {p p' : Pc}
      → Move n t key p es key' p'
      → Late p
      → Late p' × (key' ≡ key) × (allocations es ≡ []) × All (Uses key) es
  unfolding allocations
  Move-Late alloc_ok e = absurd e
  Move-Late alloc_fails e = absurd e
  Move-Late (alloc_remote v) e = absurd e
  Move-Late (write i j size found more) e = (tt, refl, refl, (inl refl, tt))
  Move-Late (write_rate i j size found over) e = (tt, refl, refl, (tt, tt))
  Move-Late (written i j over) e = (tt, refl, refl, tt)
  Move-Late (read i j size found more) e = (tt, refl, refl, (refl, tt))
  Move-Late (read_rate i j size found over) e = (tt, refl, refl, (tt, tt))
  Move-Late (read_all i j over) e = (tt, refl, refl, tt)
  Move-Late free e = (tt, refl, refl, tt)

  acts-Phase :
      (s : System) (t : ℕ) {es : List Event} {key : ℤ} {p : Pc}
      → t < n
      → Move n t s.test_key (s.pc t) es key p
      → Phase s
      → Phase (record { test_key = key; pc = update s.pc t p; log = es ++ s.log })
  unfolding allocations
  acts-Phase s t {es} {key} {p} small move (early zero_ quiet all) =
      let (none_, same, e) = Move-Early move (all t small) in
      early (same ∙ zero_) (rw (none_, quiet) refl)
        (update-all (λ u q. u < n → Early q) s.pc t p (λ _. e) all)
  acts-Phase s t {es} {key} {p} small move (pending a few at_ zero_ before all) =
      elim (ℕ_discrete a t) [
        | yes same ↦ own_step same
        | no other ↦
            let (e, kept, more) = Move-InWrites move zero_ (all t other small) in
            pending a few (update_other s.pc t a p (λ e. other (sym e)) ∙ at_) (kept ∙ zero_)
              (All-append Unallocated es s.log more before)
              (update-all (λ u q. a ≢ u → u < n → InWrites q) s.pc t p (λ _ _. e) all)
      ]
    where
      own_step : a ≡ t → Phase (record { test_key = key; pc = update s.pc t p; log = es ++ s.log })
      own_step same =
          let (one, q) = Move-allocating move (ap s.pc (sym same) ∙ at_) in
          keyed key refl (rw one (ap (λ vs. key ∷ vs) (allocations-Unallocated s.log before)))
            (rw one (refl, Unallocated-Uses key s.log before))
            (update-others (λ u r. u < n → Late r) s.pc t p (λ _. rw q tt)
              (λ u other few. InWrites-Late (s.pc u) (all u (λ e. other (sym same ∙ e)) few)))
  acts-Phase s t {es} {key} {p} small move (keyed v is_v one uses all) =
      let (e, same, none_, more) = Move-Late move (all t small) in
      keyed v (same ∙ is_v) (allocations-append es s.log none_ ∙ one)
        (All-append (Uses v) es s.log (subst (λ k. All (Uses k) es) is_v more) uses)
        (update-all (λ u q. u < n → Late q) s.pc t p (λ _. e) all)

  passes-Phase :
      (s : System) (w : Wait) (serial : ℕ)
      → serial < n
      → ((t : ℕ) → t < n → s.pc t ≡ waiting w)
      → Phase s
      → Phase (record s { pc = update (λ t. after w) serial (serial_after w) })
  passes-Phase s first serial small wait (early zero_ quiet all) =
      pending serial small (update_self (λ t. after first) serial (serial_after first)) zero_
        (rw quiet tt)
        (λ u other few. rw (update_other (λ t. after first) serial u (serial_after first) other) tt)
  passes-Phase s second serial small wait (early zero_ quiet all) =
      absurd (subst Early (wait serial small) (all serial small))
  passes-Phase s third serial small wait (early zero_ quiet all) =
      absurd (subst Early (wait serial small) (all serial small))
  passes-Phase s w serial small wait (pending a few at_ zero_ before all) = let e = wait a few in cc
  passes-Phase s first serial small wait (keyed v is_v one uses all) =
      absurd (subst Late (wait serial small) (all serial small))
  passes-Phase s second serial small wait (keyed v is_v one uses all) = keyed v is_v one uses (
      update-all (λ u q. u < n → Late q) (λ t. after second) serial (serial_after second) (λ _. tt)
        (λ u _. tt))
  passes-Phase s third serial small wait (keyed v is_v one uses all) = keyed v is_v one uses (
      update-all (λ u q. u < n → Late q) (λ t. after third) serial (serial_after third) (λ _. tt)
        (λ u _. tt))

  pub Reach-Phase : {s : System} → Reach n s → Phase s
  Reach-Phase begins = early refl refl (λ t _. tt)
  Reach-Phase (later {s = s} r (acts t small move)) = acts-Phase s t small move (Reach-Phase r)
  Reach-Phase (later {s = s} r (passes w serial small wait)) =
      passes-Phase s w serial small wait (Reach-Phase r)
