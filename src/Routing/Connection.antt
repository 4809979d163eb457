-- ===== src/Routing/Connection.antt =====
-- How routing.cpp looks after its connection: error codes, and what an error leaves behind.
use freelite.Base.{ℤ, pos, minus_one, ℤ_discrete, Bytes, Bytes_discrete, none, ◌≡◌, ◌≢◌, ◌⊎◌, arith}
use freelite.Base.UnorderedMap.{find}
use freelite.Os.{Stream}
use freelite.Vcm.{VcmMsg}
use freelite.Routing.{Router, vcm_handler, vcm_join, vcm_vid_nid}

module _ {W : Type 0} (net : Stream W VcmMsg VcmMsg) where
  -- `vcm_handler` returns 0 or -1 and touches no map. On 0 it keeps the socket; on -1 there is no
  -- socket afterwards.
  pub vcm_handler-result :
      (msg : VcmMsg) (s : Router W)
      → let r = vcm_handler net msg s in
        (((r.0.0 ≡ pos 0) × (r.1.client_sock ≡ s.client_sock) × (s.client_sock ≢ minus_one))
          ⊎ ((r.0.0 ≡ minus_one) × (r.1.client_sock ≡ minus_one)))
        × (r.1.vid_nid_map_cache ≡ s.vid_nid_map_cache)
        × (r.1.cid_vid_map ≡ s.cid_vid_map)
  unfolding vcm_handler
  vcm_handler-result msg s = ground arith

  -- Without a socket no join and no question about a vid reaches the manager, or the network at all: a container or a vid that
  -- is not in the maps is answered -1, and nothing changes. The router does not connect again.
  pub no_reconnection :
      (router_nid vid : ℤ) (cid : Bytes) (s : Router W)
      → s.client_sock ≡ minus_one
      → find Bytes_discrete cid s.cid_vid_map ≡ none
      → find ℤ_discrete vid s.vid_nid_map_cache ≡ none
      → (vcm_join net router_nid cid s ≡ (minus_one, s)) × (vcm_vid_nid net vid s ≡ (minus_one, s))
  unfolding vcm_join vcm_vid_nid vcm_handler
  no_reconnection router_nid vid cid s h c v = ground arith
