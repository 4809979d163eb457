-- ===== src/Listener/Startup.antt =====
-- What `main` does before its loop: in vcm/vcm.cpp it opens the socket that it listens on; in
-- router/test_router.cpp it first connects to the manager and joins the cluster of LITE, and after its
-- loop it gives the connection up.
pub mod Readiness
use freelite.Base.{
  ℕ, suc, ℤ, pos, minus_one, is_neg, ltb_ℤ, Bytes, Bool, true, false, not, List, [], ◌∷◌, Option,
  none, some, ◌||◌, ◌&&◌, if◌then◌else◌,
}
use freelite.Base.State.{M}
use freelite.Os.{Stream, Sockets}
use freelite.Vcm.{VcmMsg}
use freelite.Routing.{Router, vcm_conn, vcm_disconn}
use freelite.Lite.{Kernel}
use freelite.Lite.Wrappers
use freelite.Listener.{Listener, Turn, turn}

-- The calls on the listening socket. `prepare` removes the file of the address, where it is one, and
-- `bind` is to the program's one address.
pub record ServerOs (W : Type 0) : Type 0 where
  pub socket : M W ℤ
  pub prepare : W → W
  pub bind : ℤ → M W ℤ
  pub listen : ℤ → ℕ → M W ℤ
  pub close : ℤ → W → W

-- `exit(EXIT_FAILURE)`, or the loop begins.
pub data Startup (A : Type 0) : Type 0 where
  exits : A → Startup A
  listens : Listener → A → Startup A

abbrev pub backlog : ℕ
backlog = 10

-- `client_sock` is not initialised: `junk` is what it holds.
abbrev pub listener_on : ℤ → ℤ → Listener
listener_on server_sock junk = record {
  server_sock = server_sock;
  client_sock = junk;
  keep_running = true;
  looping = true;
  unread = 0;
  serving = [];
  closed = [];
}

module _ {W : Type 0} (os : ServerOs W) (junk : ℤ) where
  -- `socket`, `bind` and `listen`.
  unfoldable pub open_server : W → Startup W
  open_server w =
      let opened = os.socket w in
      let fd = opened.0 in
      let bound = os.bind fd (os.prepare opened.1) in
      let listening = os.listen fd backlog bound.1 in
      if is_neg fd
      then exits opened.1
      else (if is_neg bound.0
          then exits (os.close fd bound.1)
          else (if is_neg listening.0
              then exits (os.close fd listening.1)
              else listens (listener_on fd junk) listening.1))

-- "172.16.0.254", the address of both managers.
abbrev pub manager_ip : Bytes
manager_ip = b'1' ∷ b'7' ∷ b'2' ∷ b'.' ∷ b'1' ∷ b'6' ∷ b'.' ∷ b'0' ∷ b'.' ∷ b'2' ∷ b'5' ∷ b'4' ∷ []

-- The router's variables with its `router_nid`.
pub record Host (W : Type 0) : Type 0 where
  pub router_nid : ℤ
  pub router : Router W

-- `router_nid <= 0 || router_nid > 10`
abbrev pub bad_nid : ℤ → Bool
bad_nid n = not (ltb_ℤ (pos 0) n) || ltb_ℤ (pos 10) n

module _ {W : Type 0} (socks : Sockets W) (net : Stream W VcmMsg VcmMsg) (k : Kernel W)
    (os : ServerOs W) (junk : ℤ) where
  -- The end of the start-up of a router that has joined: the rest works on the world alone.
  unfoldable pub with_server : Host W → Startup W → Startup (Host W)
  with_server h (exits w) = exits (record h { router = record h.router { world = w } })
  with_server h (listens l w) = listens l (record h { router = record h.router { world = w } })

  unfoldable pub after_join : Host W → Startup (Host W)
  unfolding with_server
  after_join h =
      if bad_nid h.router_nid then exits h else with_server h (open_server os junk h.router.world)

  unfoldable pub start_router : Router W → Startup (Host W)
  unfolding after_join
  start_router s =
      let connected = vcm_conn socks net manager_ip s in
      if is_neg connected.0
      then exits (record { router_nid = minus_one; router = connected.1 })
      else elim (Wrappers.join k manager_ip (pos 18500) (pos 1) connected.1.world) [
        | none ↦ exits (record { router_nid = minus_one; router = connected.1 })
        | some (n, w) ↦
            after_join (record { router_nid = n; router = record connected.1 { world = w } })
      ]

-- A turn of the router's loop. When the loop ends because of the signal, `vcm_disconn` comes before the
-- sockets are closed; after an error the program exits without it.
unfoldable pub router_turn :
    {W : Type 0} → Stream W VcmMsg VcmMsg → Turn → Listener → Router W → Listener × Router W
unfolding turn vcm_disconn
router_turn net t l r = (turn t l, if l.looping && not l.keep_running then vcm_disconn net r else r)
