-- ===== src/Routing/Shutdown.antt =====
-- What routing.cpp makes of a manager that has shut the connection down. `recv` then returns 0 and
-- writes nothing, `vcm_handler` tests for a negative result only, and the request is still in the
-- buffer that is read as the answer.
use freelite.Base.{
  ℤ, pos, minus_one, ℤ_discrete, Bytes, Bytes_discrete, is_neg, none, false, ◌≡◌, ◌≢◌, refl, arith,
  ap, ◌∙◌,
}
use freelite.Base.UnorderedMap.{find, find-insert_ne}
use freelite.Os.{Stream}
use freelite.Vcm.{VcmMsg}
use freelite.Routing.{Router, vcm_handler, vcm_join, vcm_vid_nid, remember_join}
use freelite.Routing.Branches.{join_request, nid_request}
use freelite.Routing.Connection.{vcm_handler-result}

-- The peer has gone in an orderly way: data can still be sent, and every `recv` returns 0 and
-- leaves the buffer as it is.
pub record IsShut {W : Type 0} (net : Stream W VcmMsg VcmMsg) : Type 0 where
  pub sends : (fd : ℤ) (m : VcmMsg) (w : W) → is_neg (net.send fd m w).0 ≡ false
  pub ends : (fd : ℤ) (m : VcmMsg) (w : W) → (net.recv fd m w).0 ≡ (pos 0, m)

module _ {W : Type 0} (net : Stream W VcmMsg VcmMsg) (shut : IsShut net) where
  vcm_handler-echo :
      (m : VcmMsg) (s : Router W)
      → s.client_sock ≢ minus_one
      → ((vcm_handler net m s).0 ≡ (pos 0, m)) × ((vcm_handler net m s).1.client_sock ≢ minus_one)
  unfolding vcm_handler
  vcm_handler-echo m s h = ground (
    arith,
    shut.sends s.client_sock m s.world,
    shut.ends s.client_sock m (net.send s.client_sock m s.world).1,
  )

  join_shut_once :
      (n : ℤ) (c : Bytes) (s : Router W)
      → s.client_sock ≢ minus_one
      → find Bytes_discrete c s.cid_vid_map ≡ none
      → vcm_join net n c s ≡ (n, remember_join net n c n (vcm_handler net (join_request n) s).1)
  unfolding vcm_join
  join_shut_once n c s h f = ground (arith, vcm_handler-echo (join_request n) s h)

  -- The manager has shut the connection down and the router has its socket. Then two different
  -- containers that are not in the map get the same vid, the router's own nid, instead of an error.
  pub join_shut :
      (n : ℤ) (c d : Bytes) (s : Router W)
      → s.client_sock ≢ minus_one
      → c ≢ d
      → find Bytes_discrete c s.cid_vid_map ≡ none
      → find Bytes_discrete d s.cid_vid_map ≡ none
      → let r = vcm_join net n c s in (r.0 ≡ n) × ((vcm_join net n d r.1).0 ≡ n)
  join_shut n c d s h ne fc fd =
      let echo = vcm_handler-echo (join_request n) s h in
      let (_, _, maps) = vcm_handler-result net (join_request n) s in
      let other = find-insert_ne Bytes_discrete c d n _ ne in
      rw (join_shut_once n c s h fc)
        (refl, ap (λ r. r.0) (join_shut_once n d _ echo.1 (other ∙ rw maps fd)))

  -- The manager has shut the connection down and the router has its socket. Then a vid that is not
  -- in the cache is answered as its own nid.
  pub vid_nid_shut :
      (v : ℤ) (s : Router W)
      → s.client_sock ≢ minus_one
      → find ℤ_discrete v s.vid_nid_map_cache ≡ none
      → (vcm_vid_nid net v s).0 ≡ v
  unfolding vcm_vid_nid
  vid_nid_shut v s h f = ground (arith, vcm_handler-echo (nid_request v) s h)
