-- ===== src/Listener.antt =====
-- The main loop of vcm/vcm.cpp and of router/test_router.cpp: `select`, `accept`, and a thread for each
-- connection. The two loops are the same. After its own the router also calls `vcm_disconn`, which
-- `router_turn` in Listener/Startup adds. Every thread is handed the address of the one variable
-- `client_sock`, which it reads when it starts.
pub mod Handover
pub mod Startup
mod Tests
use freelite.Base.{
  ℕ, zero, suc, ℤ, pos, minus_one, is_neg, eq_ℤ, Bool, true, false, List, [], ◌∷◌, ◌++◌, not,
  if◌then◌else◌,
}

-- `unread` counts the threads that are created and have not read the variable; `serving` has the
-- sockets that the others have read there, and `closed` those that the loop has closed.
pub record Listener : Type 0 where
  pub server_sock : ℤ
  pub client_sock : ℤ
  pub keep_running : Bool
  pub looping : Bool
  pub unread : ℕ
  pub serving : List ℤ
  pub closed : List ℤ

-- What `select`, `accept` and `pthread_create` return in one turn of the loop.
pub record Turn : Type 0 where
  pub selected : ℤ
  pub accepted : ℤ
  pub created : ℤ

pub data Event : Type 0 where
  turns : Turn → Event
  starts : Event
  interrupts : Event

-- The program leaves the loop and closes these sockets, for `exit` or at the end of `main`.
abbrev pub leave : List ℤ → Listener → Listener
leave fds s = record s { looping = false; closed = s.closed ++ fds }

-- From `accept` on. `pthread_create` returns 0, or an error number, and creates no thread then.
unfoldable pub accept_one : ℤ → ℤ → Listener → Listener
accept_one accepted created s =
    let s' = record s { client_sock = accepted } in
    if is_neg accepted
    then leave (s.server_sock ∷ accepted ∷ []) s'
    else (if is_neg created
        then leave (s.server_sock ∷ accepted ∷ []) s'
        else record s' { unread = if eq_ℤ created (pos 0) then suc s.unread else s.unread })

unfoldable pub turn : Turn → Listener → Listener
unfolding accept_one
turn t s =
    if not s.looping
    then s
    else (if not s.keep_running
        then leave (s.server_sock ∷ s.client_sock ∷ []) s
        else (if is_neg t.selected
            then leave (s.server_sock ∷ []) s
            else (if eq_ℤ t.selected (pos 0)
                then s
                else (if not (eq_ℤ t.selected (pos 1))
                    then leave (s.server_sock ∷ []) s
                    else accept_one t.accepted t.created s))))

-- `int client_sock = *((int *)fd);` of the thread.
unfoldable pub start : ℕ → Listener → Listener
start zero s = s
start (suc n) s = record s { unread = n; serving = s.serving ++ s.client_sock ∷ [] }

unfoldable pub happen : Listener → Event → Listener
unfolding turn start
happen s (turns t) = turn t s
happen s starts = start s.unread s
happen s interrupts = record s { keep_running = false }

unfoldable pub run : Listener → List Event → Listener
unfolding happen
run s [] = s
run s (e ∷ es) = run (happen s e) es
