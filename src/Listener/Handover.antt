-- ===== src/Listener/Handover.antt =====
-- How a thread comes by its socket in the main loops of vcm/vcm.cpp and router/test_router.cpp.
use freelite.Base.{
  ℕ, zero, suc, ◌+◌, ℤ, pos, true, List, [], ◌∷◌, ◌++◌, map, ◌≡◌, refl, sym, ap, ◌∙◌, arith, length,
}
use mathlib.Core.List.{append-nil, append_assoc}
use freelite.Listener.{Listener, Event, turns, starts, turn, start, happen, run, accept_one}

-- A turn in which `accept` returns the socket and a thread is created for it.
abbrev pub arrival : ℕ → Event
arrival fd = turns (record { selected = pos 1; accepted = pos fd; created = pos 0 })

-- The loop is running.
pub record IsOpen (s : Listener) : Type 0 where
  pub loops : s.looping ≡ true
  pub keeps : s.keep_running ≡ true

-- Each thread reads the variable before the next connection is accepted.
abbrev pub one_by_one : List ℕ → List Event
one_by_one [] = []
one_by_one (fd ∷ fds) = arrival fd ∷ starts ∷ one_by_one fds

abbrev pub many_starts : ℕ → List Event
many_starts zero = []
many_starts (suc n) = starts ∷ many_starts n

abbrev pub copies : ℕ → ℤ → List ℤ
copies zero fd = []
copies (suc n) fd = fd ∷ copies n fd

arrival-happens :
    (s : Listener) (fd : ℕ)
    → IsOpen s
    → happen s (arrival fd) ≡ record s { client_sock = pos fd; unread = suc s.unread }
unfolding happen turn accept_one
arrival-happens s fd o = ground (arith, o.loops, o.keeps)

arrival-start :
    (s : Listener) (fd : ℕ) (es : List Event)
    → IsOpen s
    → run s (arrival fd ∷ starts ∷ es)
      ≡ run (record s { client_sock = pos fd; serving = s.serving ++ pos fd ∷ [] }) es
unfolding run happen start
arrival-start s fd es o = ap (λ t. run (start t.unread t) es) (arrival-happens s fd o)

arrival-run :
    (s : Listener) (fd : ℕ) (es : List Event)
    → IsOpen s
    → run s (arrival fd ∷ es) ≡ run (record s { client_sock = pos fd; unread = suc s.unread }) es
unfolding run
arrival-run s fd es o = ap (λ t. run t es) (arrival-happens s fd o)

-- When each thread starts before the next connection is accepted, the threads serve the connections
-- that were accepted, each of them once and in their order, and no further thread waits. The loop
-- runs at the start.
pub one_by_one-serves :
    (s : Listener) (fds : List ℕ)
    → IsOpen s
    → let t = run s (one_by_one fds) in
      (t.serving ≡ s.serving ++ map pos fds) × (t.unread ≡ s.unread)
unfolding run
one_by_one-serves s [] o = (sym (append-nil s.serving), refl)
one_by_one-serves s (fd ∷ fds) o =
    let s' = record s { client_sock = pos fd; serving = s.serving ++ pos fd ∷ [] } in
    let rest = one_by_one-serves s' fds (record { loops = o.loops; keeps = o.keeps }) in
    let same = arrival-start s fd (one_by_one fds) o in
    (
      ap (λ t. t.serving) same ∙ rest.0 ∙ append_assoc s.serving (pos fd ∷ []) (map pos fds),
      ap (λ t. t.unread) same ∙ rest.1,
    )

arrivals-run :
    (s : Listener) (fds : List ℕ) (es : List Event)
    → IsOpen s
    → (c : ℤ) × (run s (map arrival fds ++ es)
        ≡ run (record s { client_sock = c; unread = s.unread + length fds }) es)
arrivals-run s [] es o = (s.client_sock, ap (λ n. run (record s { unread = n }) es) (omega arith))
arrivals-run s (fd ∷ fds) es o =
    let s' = record s { client_sock = pos fd; unread = suc s.unread } in
    let (c, rest) = arrivals-run s' fds es (record { loops = o.loops; keeps = o.keeps }) in
    (
      c,
      arrival-run s fd (map arrival fds ++ es) o
          ∙ rest
          ∙ ap (λ n. run (record s { client_sock = c; unread = n }) es) (omega arith),
    )

many_starts-serve :
    (n : ℕ) (s : Listener)
    → s.unread ≡ n
    → (run s (many_starts n)).serving ≡ s.serving ++ copies n s.client_sock
unfolding run happen start
many_starts-serve zero s h = sym (append-nil s.serving)
many_starts-serve (suc n) s h =
    let s' = record s { unread = n; serving = s.serving ++ s.client_sock ∷ [] } in
    let served = many_starts-serve n s' refl in
    rw h (served ∙ append_assoc s.serving (s.client_sock ∷ []) (copies n s.client_sock))

-- When several connections are accepted before the first of their threads starts, all those threads
-- serve the last connection, and no thread serves the others. The loop runs at the start, and no
-- thread has yet to read.
pub burst-serves_last :
    (s : Listener) (fds : List ℕ) (fd : ℕ)
    → IsOpen s
    → s.unread ≡ 0
    → (run s (map arrival fds ++ arrival fd ∷ many_starts (suc (length fds)))).serving
      ≡ s.serving ++ copies (suc (length fds)) (pos fd)
burst-serves_last s fds fd o h =
    let es = many_starts (suc (length fds)) in
    let (c, first) = arrivals-run s fds (arrival fd ∷ es) o in
    let s' = record s { client_sock = c; unread = s.unread + length fds } in
    let last = arrival-run s' fd es (record { loops = o.loops; keeps = o.keeps }) in
    ap (λ t. t.serving) (first ∙ last)
    ∙ many_starts-serve (suc (length fds))
        (record s' { client_sock = pos fd; unread = suc s'.unread }) (omega arith)
