-- ===== src/Threads/Calm/Matches.antt =====
-- One answer of the manager against the whole call that it ends (router/lib/routing.cpp,
-- vcm/vcm.cpp).
use freelite.Base.{
  ℕ, ℤ, pos, minus_one, List, inl, inr, Option-cases, ◌∙◌, sym, ap, some, none, ◌≡◌, ◌≢◌, refl,
  arith,
}
use mathlib.Core.Path.{subst}
use freelite.Base.UnorderedMap.{find, insert}
use freelite.Vcm.{Vcm, VcmMsg, handle}
use freelite.Routing.{Routing, Router, vcm_handler, vcm_join, vcm_vid_nid}
use freelite.Routing.Branches.{join_request, nid_request}
use freelite.Routing.Caching.{step}
use freelite.Cluster.Wire.{Wire, wire, receive}
use freelite.Cluster.Ownership.{Owner}
use freelite.Cluster.{Cluster, router_at, happen, update, update-others, update_self, update_other}
use freelite.Threads.Invariant.{Fits, Carries}
use freelite.Threads.Invariant.Whole.{Inv}
use freelite.Threads.Holder.{HolderInv}
use freelite.Threads.System.{System}
use freelite.Threads.Calm.Asking.{Asks, CalmInv}
use freelite.Threads.Calm.Settled.{
  effective, effective-held, awaiting-request, awaiting-response, Move-effective, other-effective,
}
use freelite.Threads.Worker.{
  Host, request, response, Pc, idle, blocked, looking, asking, awaiting, answered, returning, Move,
  Query, joins, asks, query, known, message, remember,
}

-- An undisturbed call whose answer the router does not know.
module _ (v v' : Vcm) (m' : VcmMsg) (r : Routing) (up : r.client_sock ≢ minus_one) where
  abbrev before : Router Wire
  before = record { routing = r; world = (v, none) }

  handler_answers :
      (m : VcmMsg)
      → handle m v ≡ some (m', v')
      → vcm_handler wire m before ≡ ((pos 0, m'), record { routing = r; world = (v', none) })
  unfolding vcm_handler receive
  handler_answers m h = ground (arith, up)

  step_answers :
      (n : ℤ) (q : Query)
      → known (query q) r ≡ none
      → handle (message n q) v ≡ some (m', v')
      → step wire n before q ≡ record { routing = remember n q m'.id r; world = (v', none) }
  unfolding step vcm_join vcm_vid_nid find insert
  step_answers n (joins cid) absent h = rw (absent, handler_answers (join_request n) h) refl
  step_answers n (asks vid) absent h = rw (absent, handler_answers (nid_request vid) h) refl

module _ (nid : ℕ → ℤ) (host_of : ℕ → ℕ) where
  -- `c` is what the calls make of the cluster one after another.
  pub record Matches (s : System) (c : Cluster Wire) : Type 0 where
    pub manager : c.world ≡ (s.vcm, none)
    pub routers : (i : ℕ) → c.routing i ≡ effective (nid i) s.pc (s.host i)

  pub moved-Matches :
      {s : System} {c : Cluster Wire} (owners : List Owner) (t : ℕ) {h : Host} {p : Pc}
      → Inv nid host_of owners s
      → HolderInv nid host_of s
      → Move (nid (host_of t)) t (s.host (host_of t)) (s.pc t) h p
      → Matches s c
      → Matches (record s { host = update s.host (host_of t) h; pc = update s.pc t p }) c
  moved-Matches {s} {c} owners t {h} {p} inv holders move e = record {
    manager = e.manager;
    routers =
        update-others (λ i g. c.routing i ≡ effective (nid i) (update s.pc t p) g) s.host
          (host_of t) h
          (e.routers (host_of t)
            ∙ sym (Move-effective (nid (host_of t)) t s.pc refl (λ b. (inv.threads t b).0) move))
          (λ i far.
            e.routers i
            ∙ sym (
                other-effective (nid i) t s.pc p (s.host i)
                  (λ u held same. far (ap host_of same ∙ (holders i u held).0))));
  }

  -- The thread whose request is on the connection of a router.
  module _ (s : System) (owners : List Owner) (i : ℕ) (m : VcmMsg) (inv : Inv nid host_of owners s)
      (holders : HolderInv nid host_of s) (calm : CalmInv nid host_of s)
      (sent : (s.host i).wire ≡ request m) where
    abbrev Sender : Type 0
    Sender =
        (t : ℕ) × (q : Query) × ((s.host i).holder ≡ some t)
        × (s.pc t ≡ awaiting q)
        × (m ≡ message (nid i) q)
        × (known (query q) (s.host i).routing ≡ none)

    at_pc :
        (t : ℕ) (p : Pc)
        → (s.host i).holder ≡ some t
        → s.pc t ≡ p
        → Fits nid owners i (s.host i) p
        → Asks p (s.host i)
        → Sender
    at_pc t (awaiting q) held at_ (_, carried) absent =
        (t, q, held, at_, subst (λ w. Carries nid owners i q w) sent carried, absent)
    at_pc t (answered q id) held at_ (quiet, _) a = let e = quiet (calm.connected i) in cc
    at_pc t (returning b n) held at_ (quiet, _) a = let e = quiet (calm.connected i) in cc
    at_pc t idle held at_ quiet a = let e = quiet (calm.connected i) in cc
    at_pc t (blocked b) held at_ quiet a = let e = quiet (calm.connected i) in cc
    at_pc t (looking b) held at_ quiet a = let e = quiet (calm.connected i) in cc
    at_pc t (asking q) held at_ quiet a = let e = quiet (calm.connected i) in cc

    sender : Sender
    sender = elim (Option-cases (s.host i).holder) [
      | inl free ↦ let e = (inv.hosts i).quiet free (calm.connected i) in cc
      | inr (t, held) ↦
          let (e, b) = holders i t held in
          let (f, a) =
            subst (λ j. Fits nid owners j (s.host j) (s.pc t) × Asks (s.pc t) (s.host j)) e
              ((inv.threads t b).1, calm.asks t b) in
          at_pc t (s.pc t) held refl f a
    ]

  pub served-Matches :
      (s : System) (c : Cluster Wire) (owners : List Owner) (i : ℕ) (m m' : VcmMsg) (v : Vcm)
      → Inv nid host_of owners s
      → HolderInv nid host_of s
      → CalmInv nid host_of s
      → (s.host i).wire ≡ request m
      → handle m s.vcm ≡ some (m', v)
      → Matches s c
      → (q : Query) × Matches
          (record s { vcm = v; host = update s.host i (record (s.host i) { wire = response m' }) })
          (happen wire nid c (record { router = i; call = q }))
  unfolding happen
  served-Matches s c owners i m m' v inv holders calm sent h e =
      let (t, q, held, at_, asked, absent) = sender s owners i m inv holders calm sent in
      let n = nid i in
      let after : Host = record (s.host i) { wire = response m' } in
      let known_here : c.routing i ≡ (s.host i).routing =
        e.routers i
        ∙ effective-held n s.pc (s.host i) t (awaiting q) held at_
        ∙ awaiting-request n q (s.host i) m sent in
      let happened : step wire n (router_at c i) q
          ≡ record { routing = remember n q m'.id (s.host i).routing; world = (v, none) } =
        ap (λ r. step wire n r q) (λ j. record { routing = known_here j; world = e.manager j })
        ∙ step_answers s.vcm v m' (s.host i).routing (calm.connected i) n q absent
            (rw (← asked) h) in
      (
        q,
        record {
          manager = ap (λ r. r.world) happened;
          routers =
              update-others (λ j r. r ≡ effective (nid j) s.pc (update s.host i after j)) c.routing
                i (step wire n (router_at c i) q).routing
                (ap (λ r. r.routing) happened
                  ∙ sym (awaiting-response n q (s.host i) m')
                  ∙ sym (effective-held n s.pc after t (awaiting q) held at_)
                  ∙ ap (effective n s.pc) (sym (update_self s.host i after)))
                (λ j far.
                  e.routers j
                  ∙ ap (effective (nid j) s.pc) (sym (update_other s.host i j after far)));
        },
      )
