-- ===== src/Threads/Schedule.antt =====
-- Runs without failures by evaluation: the threads of the routers and the manager act in a given order.
use freelite.Base.{
  ℕ, zero, suc, ℤ, minus_one, ℤ_discrete, List, Option, none, some, ◌≡◌, refl, inl, inr,
  Option-cases,
}
use mathlib.Core.List.{foldl}
use freelite.Vcm.{handle}
use freelite.Threads.Worker.{
  Query, Call, query, reads, Wire, empty, request, response, Host, Pc, idle, blocked, looking,
  asking, awaiting, answered, returning, known, Move, call, lock, hit, miss, miss_read, no_socket,
  send, recv, store, unlock,
}
use freelite.Cluster.{update}
use freelite.Threads.System.{System, start, serves}
use freelite.Threads.Calm.{Calm, calm_start, moved, answers}

-- Thread `t` begins a call, thread `t` goes on, or the manager answers router `i`.
pub data Turn : Type 0 where
  begin : ℕ → Call → Turn
  go : ℕ → Turn
  answer : ℕ → Turn

module _ (router_nid : ℤ) (t : ℕ) (h : Host) where
  abbrev Next : Pc → Type 0
  Next p = (h' : Host) × (p' : Pc) × Move router_nid t h p h' p'

  unfoldable look : (c : Call) → known c h.routing ≡ none → Next (looking c)
  look (query q) absent = (_, _, miss q absent)
  look (reads cid) absent = (_, _, miss_read cid absent)

  unfoldable wait : (q : Query) (w : Wire) → h.wire ≡ w → Option (Next (awaiting q))
  wait q empty e = none
  wait q (request m) e = none
  wait q (response m) e = some (_, _, recv q m e)

  unfoldable next_move : (p : Pc) → Option (Next p)
  unfolding look wait
  next_move idle = none
  next_move (blocked c) = elim (Option-cases h.holder) [
    | inl free ↦ some (_, _, lock c free)
    | inr _ ↦ none
  ]
  next_move (looking c) = elim (Option-cases (known c h.routing)) [
    | inl absent ↦ some (look c absent)
    | inr (n, found) ↦ some (_, _, hit c n found)
  ]
  next_move (asking q) = elim (ℤ_discrete h.routing.client_sock minus_one) [
    | yes closed ↦ some (_, _, no_socket q closed)
    | no open_ ↦ some (_, _, send q open_)
  ]
  next_move (awaiting q) = wait q h.wire refl
  next_move (answered q id) = some (_, _, store q id)
  next_move (returning c n) = some (_, _, unlock c n)

  unfoldable enter : Call → (p : Pc) → Option (Next p)
  enter c idle = some (_, _, call c)
  enter c _ = none

module _ (nid : ℕ → ℤ) (host_of : ℕ → ℕ) (fds : ℕ → ℤ) where
  pub record Run : Type 0 where
    pub steps : ℕ
    pub last : System
    pub calm : Calm nid host_of fds steps last

  unfoldable follow :
      (r : Run) (t : ℕ)
      → Option (Next (nid (host_of t)) t (r.last.host (host_of t)) (r.last.pc t))
      → Run
  follow r t none = r
  follow r t (some (h, p, move)) = record {
    steps = r.steps;
    last = record r.last { host = update r.last.host (host_of t) h; pc = update r.last.pc t p };
    calm = moved t r.calm move;
  }

  unfoldable reply : (r : Run) (i : ℕ) (w : Wire) → (r.last.host i).wire ≡ w → Run
  reply r i empty e = r
  reply r i (response m) e = r
  reply r i (request m) e = elim (Option-cases (handle m r.last.vcm)) [
    | inl _ ↦ r
    | inr ((m', v), h) ↦ record {
      steps = suc r.steps;
      last = record r.last {
        vcm = v;
        host = update r.last.host i (record (r.last.host i) { wire = response m' });
      };
      calm = answers r.calm (serves i e h);
    }
  ]

  unfoldable turn : Run → Turn → Run
  unfolding next_move follow reply enter
  turn r (go t) = follow r t (next_move (nid (host_of t)) t (r.last.host (host_of t)) (r.last.pc t))
  turn r (begin t c) =
      follow r t (enter (nid (host_of t)) t (r.last.host (host_of t)) c (r.last.pc t))
  turn r (answer i) = reply r i (r.last.host i).wire refl

  unfoldable pub run : List Turn → Run
  unfolding turn
  run = foldl turn (record { steps = zero; last = start fds; calm = calm_start })
