-- ===== src/Cluster/Delivery.antt =====
-- What the cluster needs of the network between `vcm_handler` (router/lib/routing.cpp) and
-- `server_accept_request` (vcm/vcm.cpp), and what `vcm_handler` then returns.
use freelite.Base.{
  ◌<◌, ℤ, is_neg, int_max, List, some, true, false, ◌≡◌, ◌⊎◌, inl, inr, ◌∙◌, arith, length,
  Option-cases,
}
use freelite.Os.{Stream}
use freelite.Vcm.{Vcm, VcmMsg, handle}
use freelite.Vcm.Registry.{Refines, Agrees, answer, handle-Refines}
use freelite.Routing.{Router, vcm_handler}

-- A connection to a manager that is up, for requests that the manager answers: the answer of
-- `handle` comes back whole, and the manager's state is the one after the request. Either call may
-- fail; then the request has not arrived, or has arrived and its answer is lost.
pub record Delivers {W : Type 0} (net : Stream W VcmMsg VcmMsg) (vcm_of : W → Vcm) : Type 0 where
  pub unsent :
      (fd : ℤ) (m : VcmMsg) (w : W)
      → is_neg (net.send fd m w).0 ≡ true
      → vcm_of (net.send fd m w).1 ≡ vcm_of w
  pub lost :
      (fd : ℤ) (m m' : VcmMsg) (w : W) (t : Vcm)
      → handle m (vcm_of w) ≡ some (m', t)
      → let sent = net.send fd m w in
        let got = net.recv fd m sent.1 in
        is_neg sent.0 ≡ false
        → is_neg got.0.0 ≡ true
        → (vcm_of got.1 ≡ vcm_of w) ⊎ (vcm_of got.1 ≡ t)
  pub answered :
      (fd : ℤ) (m m' : VcmMsg) (w : W) (t : Vcm)
      → handle m (vcm_of w) ≡ some (m', t)
      → let sent = net.send fd m w in
        let got = net.recv fd m sent.1 in
        is_neg sent.0 ≡ false → is_neg got.0.0 ≡ false → (got.0.1 ≡ m') × (vcm_of got.1 ≡ t)
  pub closing : (fd : ℤ) (w : W) → vcm_of (net.close fd w) ≡ vcm_of w

module _ {W : Type 0} (net : Stream W VcmMsg VcmMsg) (vcm_of : W → Vcm)
    (d : Delivers net vcm_of) where
  -- A failed call leaves the manager as it was or as the request makes it; an answered one brings
  -- the answer.
  abbrev Outcome : Vcm → VcmMsg → Vcm → (ℤ × VcmMsg) × Router W → Type 0
  Outcome s m t r =
      ((is_neg r.0.0 ≡ true) × ((vcm_of r.1.world ≡ s) ⊎ (vcm_of r.1.world ≡ t)))
      ⊎ ((is_neg r.0.0 ≡ false) × (r.0.1 ≡ m) × (vcm_of r.1.world ≡ t))

  vcm_handler-Outcome :
      (m m' : VcmMsg) (s : Router W) (t : Vcm)
      → handle m (vcm_of s.world) ≡ some (m', t)
      → Outcome (vcm_of s.world) m' t (vcm_handler net m s)
  unfolding vcm_handler
  vcm_handler-Outcome m m' s t h =
      let sent = net.send s.client_sock m s.world in
      let got = net.recv s.client_sock m sent.1 in
      ground (
        arith,
        d.unsent s.client_sock m s.world,
        d.lost s.client_sock m m' s.world t h,
        d.answered s.client_sock m m' s.world t h,
        d.closing s.client_sock sent.1,
        d.closing s.client_sock got.1,
      )

  -- The same against the registry. `nids'` is the registry that the request makes.
  abbrev pub Exchanged : List ℤ → VcmMsg → List ℤ → (ℤ × VcmMsg) × Router W → Type 0
  Exchanged nids m nids' r =
      ((is_neg r.0.0 ≡ true) × (Refines (vcm_of r.1.world) nids ⊎ Refines (vcm_of r.1.world) nids'))
      ⊎ ((is_neg r.0.0 ≡ false) × (r.0.1 ≡ m) × Refines (vcm_of r.1.world) nids')

  Outcome-Exchanged :
      {v t : Vcm} {m m' : VcmMsg} (nids nids' : List ℤ)
      → Refines v nids
      → m ≡ m'
      → Refines t nids'
      → (q : (ℤ × VcmMsg) × Router W) → Outcome v m t q
      → Exchanged nids m' nids' q
  Outcome-Exchanged nids nids' r e r' q (inl (f, inl w)) = inl (f, inl (rw w r))
  Outcome-Exchanged nids nids' r e r' q (inl (f, inr w)) = inl (f, inr (rw w r'))
  Outcome-Exchanged nids nids' r e r' q (inr (f, g, w)) = inr (f, g ∙ e, rw w r')

  -- Against a manager that stands for a registry, a call of `vcm_handler` either brings the
  -- registry's answer and the manager stands for the registry after the request, or it fails and
  -- the manager stands for the registry before or after the request.
  pub vcm_handler-Exchanged :
      (m m' : VcmMsg) (s : Router W) (nids nids' : List ℤ)
      → Refines (vcm_of s.world) nids
      → length nids < int_max
      → answer m nids ≡ some (m', nids')
      → Exchanged nids m' nids' (vcm_handler net m s)
  vcm_handler-Exchanged m m' s nids nids' r small a =
      elim (Option-cases (handle m (vcm_of s.world))) [
        | inl e ↦ absurd (rw (e, a) at (handle-Refines m (vcm_of s.world) nids r small))
        | inr ((m₁, t), e) ↦
            let agrees : Agrees (some (m₁, t)) (some (m', nids')) =
              rw (e, a) at (handle-Refines m (vcm_of s.world) nids r small) in
            Outcome-Exchanged nids nids' r agrees.0 agrees.1 (vcm_handler net m s)
              (vcm_handler-Outcome m m₁ s t e)
      ]
