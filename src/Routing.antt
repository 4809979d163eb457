-- ===== src/Routing.antt =====
-- router/lib/routing.cpp: the router's connection to the virtual cluster manager, and its two maps.
-- `map_mutex` makes each of the three public functions one step.
pub mod Branches
pub mod Connection
pub mod Caching
pub mod Shutdown
mod Tests
use freelite.Base.{
  ℤ, pos, minus_one, ℤ_discrete, Bytes, Bytes_discrete, is_neg, ltb_ℤ, eq_ℤ, List, [], Option, none,
  some, not, if◌then◌else◌,
}
use freelite.Base.State.{M}
use freelite.Base.UnorderedMap.{find, insert}
use freelite.Os.{Stream, Sockets}
use freelite.Vcm.{VcmMsg, vid_nid, nid_vid}

-- The static variables of routing.cpp.
pub record Routing : Type 0 where
  pub client_sock : ℤ
  pub vid_nid_map_cache : List (ℤ × ℤ)
  pub cid_vid_map : List (Bytes × ℤ)

abbrev pub init : Routing
init = record { client_sock = minus_one; vid_nid_map_cache = []; cid_vid_map = [] }

-- The variables with the world in which the calls are made.
pub record Router (W : Type 0) : Type 0 where
  pub routing : Routing
  pub open routing use *
  pub world : W

module _ {W : Type 0} where
  abbrev pub with_sock : ℤ → W → Router W → Router W
  with_sock fd w s = record s { routing = record s.routing { client_sock = fd }; world = w }

module _ {W : Type 0} (net : Stream W VcmMsg VcmMsg) where
  unfoldable pub vcm_disconn : Router W → Router W
  vcm_disconn s = with_sock minus_one (net.close s.client_sock s.world) s

  -- The result is the error code with what `*msg` holds then.
  unfoldable pub vcm_handler : VcmMsg → M (Router W) (ℤ × VcmMsg)
  unfolding vcm_disconn
  vcm_handler msg s =
      if eq_ℤ s.client_sock minus_one
      then ((minus_one, msg), s)
      else (let sent = net.send s.client_sock msg s.world in
          let s₁ = record s { world = sent.1 } in
          if is_neg sent.0
          then ((minus_one, msg), vcm_disconn s₁)
          else (let received = net.recv s.client_sock msg s₁.world in
              let s₂ = record s₁ { world = received.1 } in
              if is_neg received.0.0
              then ((minus_one, received.0.1), vcm_disconn s₂)
              else ((pos 0, received.0.1), s₂)))

  unfoldable pub vcm_get_node_id : Bytes → Router W → ℤ
  vcm_get_node_id cid s = elim (find Bytes_discrete cid s.cid_vid_map) [
    | none ↦ minus_one
    | some vid ↦ vid
  ]

  -- The end of the branch of `vcm_join` that has an answer: both maps take the new vid.
  abbrev pub remember_join : ℤ → Bytes → ℤ → Router W → Router W
  remember_join router_nid cid vid s = record s {
    routing = record s.routing {
      cid_vid_map = insert Bytes_discrete cid vid s.cid_vid_map;
      vid_nid_map_cache = insert ℤ_discrete vid router_nid s.vid_nid_map_cache;
    };
  }

  abbrev pub remember_nid : ℤ → ℤ → Router W → Router W
  remember_nid vid nid s = record s {
    routing = record s.routing {
      vid_nid_map_cache = insert ℤ_discrete vid nid s.vid_nid_map_cache;
    };
  }

  unfoldable pub vcm_join : ℤ → Bytes → M (Router W) ℤ
  vcm_join router_nid cid s = elim (find Bytes_discrete cid s.cid_vid_map) [
    | none ↦
        let r = vcm_handler (record { func_code = nid_vid; id = router_nid }) s in
        if is_neg r.0.0
        then (minus_one, r.1)
        else (let vid = r.0.1.id in (vid, remember_join router_nid cid vid r.1))
    | some vid ↦ (vid, s)
  ]

  unfoldable pub vcm_vid_nid : ℤ → M (Router W) ℤ
  vcm_vid_nid vid s = elim (find ℤ_discrete vid s.vid_nid_map_cache) [
    | none ↦
        let r = vcm_handler (record { func_code = vid_nid; id = vid }) s in
        if is_neg r.0.0
        then (minus_one, r.1)
        else (let nid = r.0.1.id in (nid, remember_nid vid nid r.1))
    | some nid ↦ (nid, s)
  ]

-- The header line `VCM_PORT` and the family are constants of the call of `connect`.
unfoldable pub vcm_conn : {W : Type 0} → Sockets W → Stream W VcmMsg VcmMsg → Bytes → M (Router W) ℤ
unfolding vcm_disconn
vcm_conn socks net vcm_ip s =
    let opened = socks.socket s.world in
    let fd = opened.0 in
    let s₁ = with_sock fd opened.1 s in
    if is_neg fd
    then (minus_one, s₁)
    else if not (ltb_ℤ (pos 0) (socks.inet_pton vcm_ip))
    then (minus_one, s₁)
    else (let connected = socks.connect fd vcm_ip s₁.world in
        let s₂ = record s₁ { world = connected.1 } in
        if is_neg connected.0 then (minus_one, vcm_disconn net s₂) else (fd, s₂))
