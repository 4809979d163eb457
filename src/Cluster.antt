-- ===== src/Cluster.antt =====
-- The virtual cluster: one manager (vcm/vcm.cpp) and any number of routers (router/lib/routing.cpp),
-- which call it one after another in any order. A run is a list of events.
pub mod Delivery
pub mod Ownership
pub mod Calls
pub mod Invariant
pub mod Safety
pub mod Requests
pub mod Staleness
pub mod Wire
pub mod Hosts
mod Tests
use freelite.Base.{ℕ, ℤ, List, [], ◌∷◌, ◌++◌, ◌≡◌, refl, ite, ℕ_discrete, ◌≢◌}
use mathlib.Core.Path.{subst}
use mathlib.Core.Logic.{if_pos, if_neg}
use freelite.Os.{Stream}
use freelite.Vcm.{VcmMsg}
use freelite.Routing
use freelite.Routing.{Routing, Router}
use freelite.Routing.Caching.{Call, step}

-- The routers' variables, and the world that they share.
pub record Cluster (W : Type 0) : Type 0 where
  pub world : W
  pub routing : ℕ → Routing

-- A call that a router makes for one of its containers.
pub record Event : Type 0 where
  pub router : ℕ
  pub call : Call

abbrev pub update {ℓ} : {A : Type ℓ} → (ℕ → A) → ℕ → A → ℕ → A
update f i a j = ite (ℕ_discrete i j) a (f j)

-- What holds of the new value at `i`, and of the old ones, holds of the family after the update.
pub update-others {ℓ κ} :
    {A : Type ℓ} (P : ℕ → A → Type κ) (f : ℕ → A) (i : ℕ) (a : A)
    → P i a
    → ((j : ℕ) → i ≢ j → P j (f j))
    → (j : ℕ) → P j (update f i a j)
update-others P f i a new old j = elim (ℕ_discrete i j) [
  | yes same ↦ rw (if_pos _ same) (subst (λ k. P k a) same new)
  | no other ↦ rw (if_neg _ other) (old j other)
]

pub update-all {ℓ κ} :
    {A : Type ℓ} (P : ℕ → A → Type κ) (f : ℕ → A) (i : ℕ) (a : A)
    → P i a
    → ((j : ℕ) → P j (f j))
    → (j : ℕ) → P j (update f i a j)
update-all P f i a new old = update-others P f i a new (λ j _. old j)

pub update_same {ℓ} : {A : Type ℓ} (f : ℕ → A) (i j : ℕ) (a : A) → i ≡ j → update f i a j ≡ a
update_same f i j a same = if_pos (ℕ_discrete i j) same a (f j)

pub update_other {ℓ} : {A : Type ℓ} (f : ℕ → A) (i j : ℕ) (a : A) → i ≢ j → update f i a j ≡ f j
update_other f i j a other = if_neg (ℕ_discrete i j) other a (f j)

pub update_self {ℓ} : {A : Type ℓ} (f : ℕ → A) (i : ℕ) (a : A) → update f i a i ≡ a
update_self f i a = update_same f i i a refl

abbrev pub router_at : {W : Type 0} → Cluster W → ℕ → Router W
router_at c i = record { routing = c.routing i; world = c.world }

abbrev pub start : {W : Type 0} → W → (ℕ → ℤ) → Cluster W
start w fds = record { world = w; routing = λ i. record Routing.init { client_sock = fds i } }

-- What a list of events leads to.
unfoldable pub runs : {S E : Type 0} → (S → E → S) → S → List E → S
runs act c [] = c
runs act c (e ∷ es) = runs act (act c e) es

pub runs-append :
    {S E : Type 0} (act : S → E → S) (s : S) (es fs : List E)
    → runs act s (es ++ fs) ≡ runs act (runs act s es) fs
unfolding runs
runs-append act s [] fs = refl
runs-append act s (e ∷ es) fs = runs-append act (act s e) es fs

-- `nid i` is the `router_nid` of router `i`.
module _ {W : Type 0} (net : Stream W VcmMsg VcmMsg) (nid : ℕ → ℤ) where
  unfoldable pub happen : Cluster W → Event → Cluster W
  happen c e =
      let r = step net (nid e.router) (router_at c e.router) e.call in
      record { world = r.world; routing = update c.routing e.router r.routing }

  unfoldable pub history : Cluster W → List Event → Cluster W
  unfolding runs happen
  history = runs happen
