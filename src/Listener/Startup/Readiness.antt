-- ===== src/Listener/Startup/Readiness.antt =====
-- What is known of a program that has started to listen.
use freelite.Base.{
  ℕ, ◌<◌, ◌≤◌, ℤ, pos, negsuc, is_neg, true, false, Option, some, none, ltb_ℤ, sym, ◌≡◌, ◌≢◌, ◌⊎◌,
  refl, ap, ◌∙◌, arith, Bool-cases, inl, inr, Option-cases, [],
}
use freelite.Os.{Stream, Sockets}
use freelite.Vcm.{VcmMsg}
use freelite.Routing.{Router, vcm_conn}
use freelite.Lite.{Kernel}
use freelite.Lite.Wrappers
use freelite.Listener.Startup.{
  ServerOs, Startup, exits, listens, open_server, Host, with_server, after_join, start_router,
  bad_nid, manager_ip,
}

nid_bounds : (n : ℤ) → bad_nid n ≡ false → (m : ℕ) × (n ≡ pos m) × (0 < m) × (m ≤ 10)
nid_bounds (pos m) h = (m, refl, ground arith, ground arith)
nid_bounds (negsuc m) h = cc

module _ {W : Type 0} (os : ServerOs W) (junk : ℤ) where
  -- None of `socket`, `bind` and `listen` fails.
  abbrev pub Accepted : W → Type 0
  Accepted w =
      let opened = os.socket w in
      let bound = os.bind opened.0 (os.prepare opened.1) in
      (is_neg opened.0 ≡ false)
      × (is_neg bound.0 ≡ false)
      × (is_neg (os.listen opened.0 10 bound.1).0 ≡ false)

  -- One of `socket`, `bind` and `listen` fails.
  abbrev pub Refused : W → Type 0
  Refused w =
      let opened = os.socket w in
      let bound = os.bind opened.0 (os.prepare opened.1) in
      (is_neg opened.0 ≡ true)
      ⊎ ((is_neg bound.0 ≡ true) ⊎ (is_neg (os.listen opened.0 10 bound.1).0 ≡ true))

  -- The program listens on a socket that was opened, bound and listened to without an error, or it
  -- exits after one of the calls has failed, with that socket closed unless there is none.
  abbrev pub Opens : W → Startup W → Type 0
  Opens w (listens l w') =
      (l.server_sock ≡ (os.socket w).0) × Accepted w × (l.unread ≡ 0) × (l.serving ≡ [])
  Opens w (exits w') =
      Refused w × ((is_neg (os.socket w).0 ≡ true) ⊎ ((u : W) × (w' ≡ os.close (os.socket w).0 u)))

  pub open_server-Opens : (w : W) → Opens w (open_server os junk w)
  unfolding open_server
  open_server-Opens w = elim (Bool-cases (is_neg (os.socket w).0)) [
    | inl none_open ↦ rw (none_open, open_server) (inl none_open, inl none_open)
    | inr open_now ↦
        rw (open_now, open_server)
          (elim (Bool-cases (is_neg bound.0)) [
            | inl unbound ↦ rw unbound (inr (inl unbound), inr (_, refl))
            | inr fine ↦ rw fine (elim (Bool-cases (is_neg listening.0)) [
              | inl deaf ↦ rw deaf (inr (inr deaf), inr (_, refl))
              | inr hears ↦ rw hears (refl, (open_now, fine, hears), refl, refl)
            ])
          ])
  ]
    where
      bound : ℤ × W
      bound = os.bind (os.socket w).0 (os.prepare (os.socket w).1)

      listening : ℤ × W
      listening = os.listen (os.socket w).0 10 bound.1

module _ {W : Type 0} (socks : Sockets W) (net : Stream W VcmMsg VcmMsg) (k : Kernel W)
    (os : ServerOs W) (junk : ℤ) where
  -- What `connect` gives on a socket opened before it.
  abbrev pub connection : Router W → ℤ × W
  connection s = let opened = socks.socket s.world in socks.connect opened.0 manager_ip opened.1

  -- The manager's address is one, and neither `socket` nor `connect` fails.
  abbrev pub Connected : Router W → Type 0
  Connected s =
      (is_neg (socks.socket s.world).0 ≡ false)
      × (ltb_ℤ (pos 0) (socks.inet_pton manager_ip) ≡ true)
      × (is_neg (connection s).0 ≡ false)

  abbrev pub Unconnected : Router W → Type 0
  Unconnected s =
      (is_neg (socks.socket s.world).0 ≡ true)
      ⊎ ((ltb_ℤ (pos 0) (socks.inet_pton manager_ip) ≡ false) ⊎ (is_neg (connection s).0 ≡ true))

  connects : (s : Router W) → Unconnected s ⊎ Connected s
  connects s = elim (Bool-cases (is_neg (socks.socket s.world).0)) [
    | inl none_open ↦ inl (inl none_open)
    | inr open_now ↦ elim (Bool-cases (ltb_ℤ (pos 0) (socks.inet_pton manager_ip))) [
      | inr bad ↦ inl (inr (inl bad))
      | inl good ↦ elim (Bool-cases (is_neg (connection s).0)) [
        | inl failed ↦ inl (inr (inr failed))
        | inr fine ↦ inr (open_now, good, fine)
      ]
    ]
  ]

  vcm_conn-Connected :
      (s : Router W)
      → Connected s
      → let r = vcm_conn socks net manager_ip s in
        (r.0 ≡ (socks.socket s.world).0)
        × (r.1.client_sock ≡ (socks.socket s.world).0)
        × (r.1.world ≡ (connection s).1)
  unfolding vcm_conn
  vcm_conn-Connected s (open_now, good, fine) =
      rw (open_now, good, fine, vcm_conn) (refl, refl, refl)

  vcm_conn-Unconnected :
      (s : Router W) → Unconnected s → is_neg (vcm_conn socks net manager_ip s).0 ≡ true
  unfolding vcm_conn
  vcm_conn-Unconnected s h = ground arith

  -- The cluster answers `n` to the router that is connected, and leaves the world `w`.
  abbrev pub Joins : Router W → ℤ → W → Type 0
  Joins s n w = Wrappers.join k manager_ip (pos 18500) (pos 1) (connection s).1 ≡ some (n, w)

  -- The address is short enough for the buffer of `join`.
  joins_always : (w : W) → Wrappers.join k manager_ip (pos 18500) (pos 1) w ≢ none
  unfolding Wrappers.join
  joins_always w e = cc

  abbrev pub IsReady : Router W → Startup (Host W) → Type 0
  IsReady s (exits h) =
      Unconnected s
      ⊎ (Connected s
          × ((w : W) × Joins s h.router_nid w
              × ((bad_nid h.router_nid ≡ true)
                  ⊎ ((bad_nid h.router_nid ≡ false) × Refused os junk w))))
  IsReady s (listens l h) =
      Connected s
      × (h.router.client_sock ≡ (socks.socket s.world).0)
      × ((w : W) × Joins s h.router_nid w
          × ((n : ℕ) × (h.router_nid ≡ pos n) × (0 < n) × (n ≤ 10))
          × (l.server_sock ≡ (os.socket w).0)
          × Accepted os junk w)

  with_server-IsReady :
      (s : Router W) (h : Host W) (o : Startup W)
      → Connected s
      → h.router.client_sock ≡ (socks.socket s.world).0
      → Joins s h.router_nid h.router.world
      → bad_nid h.router_nid ≡ false
      → Opens os junk h.router.world o
      → IsReady s (with_server socks net k os junk h o)
  unfolding with_server
  with_server-IsReady s h (exits w') c sock joins good opened =
      inr (c, (h.router.world, joins, inr (good, opened.0)))
  with_server-IsReady s h (listens l w') c sock joins good opened =
      (c, sock, (h.router.world, joins, nid_bounds h.router_nid good, opened.0, opened.1))

  after_join-IsReady :
      (s : Router W) (h : Host W)
      → Connected s
      → h.router.client_sock ≡ (socks.socket s.world).0
      → Joins s h.router_nid h.router.world
      → IsReady s (after_join socks net k os junk h)
  unfolding after_join
  after_join-IsReady s h c sock joins = elim (Bool-cases (bad_nid h.router_nid)) [
    | inl bad ↦ rw (bad, after_join) (inr (c, (h.router.world, joins, inl bad)))
    | inr good ↦
        rw (good, after_join)
          (with_server-IsReady s h (open_server os junk h.router.world) c sock joins good
            (open_server-Opens os junk h.router.world))
  ]

  -- A router either reaches its loop or exits. It reaches the loop with a nid from 1 to 10, which is
  -- what the cluster has answered, with the socket on which `connect` to the manager's address has not
  -- failed, and with a socket on which neither `bind` nor `listen` has failed. It exits if the
  -- manager's address is none or one of `socket` and `connect` fails; or if it is connected and the
  -- nid is outside that range; or if it is connected, the nid is in the range, and one of `socket`,
  -- `bind` and `listen` fails in the world that the join has left.
  pub start_router-IsReady : (s : Router W) → IsReady s (start_router socks net k os junk s)
  unfolding start_router
  start_router-IsReady s = elim (connects s) [
    | inl failed ↦ rw (vcm_conn-Unconnected s failed, start_router) (inl failed)
    | inr c ↦
        let (e, sock, there) = vcm_conn-Connected s c in
        rw (ap is_neg e ∙ c.0, start_router)
          (elim (Option-cases joined) [
            | inl none_there ↦ absurd (joins_always _ none_there)
            | inr ((n, w), answered) ↦ rw answered (
                after_join-IsReady s
                  (record {
                    router_nid = n;
                    router = record (vcm_conn socks net manager_ip s).1 { world = w };
                  })
                  c sock
                  (sym (ap (Wrappers.join k manager_ip (pos 18500) (pos 1)) there) ∙ answered))
          ])
  ]
    where
      joined : Option (ℤ × W)
      joined =
          Wrappers.join k manager_ip (pos 18500) (pos 1) (vcm_conn socks net manager_ip s).1.world
