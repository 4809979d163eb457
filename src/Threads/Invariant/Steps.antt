-- ===== src/Threads/Invariant/Steps.antt =====
-- Every step of a thread keeps what holds of its router and of itself.
use freelite.Base.{
  ℕ, ℤ, minus_one, inr, List, Option, some, ◌≡◌, ◌≢◌, refl, sym, ◌∙◌, some_injective,
}
use freelite.Cluster.Ownership.{Owner, Truthful-same}
use freelite.Threads.Worker.{
  Query, joins, asks, query, reads, Host, Pc, returning, remember, disconnected, Move, call, lock,
  hit, miss, miss_read, no_socket, send, recv, store, unlock, Fault, send_fails, recv_fails,
}
use freelite.Threads.Invariant.{
  HostInv, ThreadInv, IsQuiet, Answers, known-Results, unknown-Results, remember-Truthful,
}

module _ (nid : ℕ → ℤ) (owners : List Owner) (i t : ℕ) where
  abbrev pub Both : Host → Pc → Type 0
  Both h p = HostInv nid owners i h × ThreadInv nid owners i t h p

  store-Both :
      {h : Host} (q : Query) (id : ℤ)
      → HostInv nid owners i h
      → (h.holder ≡ some t) × (IsQuiet nid owners i h × Answers nid owners i q id)
      → Both (record h { routing = remember (nid i) q id h.routing }) (returning (query q) id)
  store-Both {h} (joins cid) id k (held, (quiet, a)) = (
    record {
      truthful = remember-Truthful nid owners i (joins cid) id h.routing k.truthful a;
      sane = k.sane;
      quiet = k.quiet;
    },
    λ _. (held, (quiet, inr a)),
  )
  store-Both {h} (asks vid) id k (held, (quiet, a)) = (
    record {
      truthful = remember-Truthful nid owners i (asks vid) id h.routing k.truthful a;
      sane = k.sane;
      quiet = k.quiet;
    },
    λ _. (held, (quiet, a)),
  )

  pub Move-Both : {h h' : Host} {p p' : Pc} → Move (nid i) t h p h' p' → Both h p → Both h' p'
  Move-Both (call c) (k, v) = (k, λ e. cc)
  Move-Both (lock c free) (k, v) =
      (record { truthful = k.truthful; sane = k.sane; quiet = λ e. cc }, λ _. (refl, k.quiet free))
  Move-Both {h} (hit c n found) (k, v) = (
    k,
    λ _. ((v refl).0, ((v refl).1, known-Results nid owners i c n h.routing k.truthful found)),
  )
  Move-Both (miss q absent) (k, v) = (k, λ _. v refl)
  Move-Both (miss_read cid absent) (k, v) =
      (k, λ _. ((v refl).0, ((v refl).1, unknown-Results nid owners i (reads cid))))
  Move-Both (no_socket q closed) (k, v) =
      (k, λ _. ((v refl).0, ((v refl).1, unknown-Results nid owners i (query q))))
  Move-Both (send q open_) (k, v) = (
    record { truthful = k.truthful; sane = (q, refl); quiet = λ e. cc ((v refl).0) },
    λ _. ((v refl).0, (open_, refl)),
  )
  Move-Both (recv q m arrived) (k, v) =
      let (held, (_, carried)) = v refl in
      (
        record { truthful = k.truthful; sane = tt; quiet = λ e _. refl },
        λ _. (held, (λ _. refl, rw arrived at carried)),
      )
  Move-Both (store q id) (k, v) = store-Both q id k (v refl)
  Move-Both (unlock c n) (k, v) =
      (record { truthful = k.truthful; sane = k.sane; quiet = λ _. (v refl).1.0 }, λ e. cc)

  disconnected-Both :
      {h : Host} (q : Query)
      → HostInv nid owners i h
      → h.holder ≡ some t
      → Both (disconnected h) (returning (query q) minus_one)
  disconnected-Both {h} q k held = (
    record {
      truthful = Truthful-same nid owners i h.routing _ refl refl k.truthful;
      sane = k.sane;
      quiet = λ e open_. absurd (open_ refl);
    },
    λ _. (held, (λ open_. absurd (open_ refl), unknown-Results nid owners i (query q))),
  )

  pub Fault-Both : {h h' : Host} {p p' : Pc} → Fault h p h' p' → Both h p → Both h' p'
  Fault-Both (send_fails q open_) (k, v) = disconnected-Both q k (v refl).0
  Fault-Both (recv_fails q) (k, v) = disconnected-Both q k (v refl).0

  clash : {holder : Option ℕ} {u : ℕ} → t ≢ u → holder ≡ some t → holder ≡ some u → ⊥
  clash other mine theirs = other (some_injective (sym mine ∙ theirs))

  -- A thread leaves the router as it is while another one holds the lock.
  pub Move-other :
      {h h' : Host} {p p' : Pc} (u : ℕ)
      → t ≢ u
      → h.holder ≡ some u
      → Move (nid i) t h p h' p'
      → ThreadInv nid owners i t h p
      → h' ≡ h
  Move-other u other held (call c) v = refl
  Move-other u other held (lock c free) v = cc
  Move-other u other held (hit c n found) v = refl
  Move-other u other held (miss q absent) v = refl
  Move-other u other held (miss_read cid absent) v = refl
  Move-other u other held (no_socket q closed) v = refl
  Move-other u other held (send q open_) v = absurd (clash other (v refl).0 held)
  Move-other u other held (recv q m arrived) v = absurd (clash other (v refl).0 held)
  Move-other u other held (store q id) v = absurd (clash other (v refl).0 held)
  Move-other u other held (unlock c n) v = absurd (clash other (v refl).0 held)

  pub Fault-other :
      {h h' : Host} {p p' : Pc} (u : ℕ)
      → t ≢ u
      → h.holder ≡ some u
      → Fault h p h' p'
      → ThreadInv nid owners i t h p
      → h' ≡ h
  Fault-other u other held (send_fails q open_) v = absurd (clash other (v refl).0 held)
  Fault-other u other held (recv_fails q) v = absurd (clash other (v refl).0 held)
