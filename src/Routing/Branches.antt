-- ===== src/Routing/Branches.antt =====
-- The branches of `vcm_join` and `vcm_vid_nid`, as rules: a claim about the result holds if it holds
-- on the cached answer, on a failed exchange with the manager, and on an answered one.
use freelite.Base.{
  ℤ, minus_one, ℤ_discrete, Bytes, Bytes_discrete, is_neg, none, some, true, false, ◌≡◌, inl, inr,
  Option-cases, Bool-cases,
}
use freelite.Base.UnorderedMap.{find}
use freelite.Os.{Stream}
use freelite.Vcm.{VcmMsg, vid_nid, nid_vid}
use freelite.Routing.{Router, vcm_handler, vcm_join, vcm_vid_nid, remember_join, remember_nid}

-- What the router asks the manager.
abbrev pub join_request : ℤ → VcmMsg
join_request router_nid = record { func_code = nid_vid; id = router_nid }

abbrev pub nid_request : ℤ → VcmMsg
nid_request vid = record { func_code = vid_nid; id = vid }

module _ {ℓ} {W : Type 0} (net : Stream W VcmMsg VcmMsg) (P : ℤ × Router W → Type ℓ) where
  pub vcm_join-cases :
      (n : ℤ) (cid : Bytes) (s : Router W)
      → ((v : ℤ) → find Bytes_discrete cid s.cid_vid_map ≡ some v → P (v, s))
      → (let r = vcm_handler net (join_request n) s in
          is_neg r.0.0 ≡ true → find Bytes_discrete cid s.cid_vid_map ≡ none → P (minus_one, r.1))
      → (let r = vcm_handler net (join_request n) s in
          is_neg r.0.0 ≡ false
          → find Bytes_discrete cid s.cid_vid_map ≡ none
          → P (r.0.1.id, remember_join net n cid r.0.1.id r.1))
      → P (vcm_join net n cid s)
  unfolding vcm_join
  vcm_join-cases n cid s cached failed answered =
      elim (Option-cases (find Bytes_discrete cid s.cid_vid_map)) [
        | inr (v, e) ↦ rw (e, vcm_join) (cached v e)
        | inl e ↦
            rw (e, vcm_join)
              (elim (Bool-cases (is_neg (vcm_handler net (join_request n) s).0.0)) [
                | inl f ↦ rw f (failed f e)
                | inr f ↦ rw f (answered f e)
              ])
      ]

  pub vcm_vid_nid-cases :
      (v : ℤ) (s : Router W)
      → ((n : ℤ) → find ℤ_discrete v s.vid_nid_map_cache ≡ some n → P (n, s))
      → (let r = vcm_handler net (nid_request v) s in
          is_neg r.0.0 ≡ true → find ℤ_discrete v s.vid_nid_map_cache ≡ none → P (minus_one, r.1))
      → (let r = vcm_handler net (nid_request v) s in
          is_neg r.0.0 ≡ false
          → find ℤ_discrete v s.vid_nid_map_cache ≡ none
          → P (r.0.1.id, remember_nid net v r.0.1.id r.1))
      → P (vcm_vid_nid net v s)
  unfolding vcm_vid_nid
  vcm_vid_nid-cases v s cached failed answered =
      elim (Option-cases (find ℤ_discrete v s.vid_nid_map_cache)) [
        | inr (n, e) ↦ rw (e, vcm_vid_nid) (cached n e)
        | inl e ↦
            rw (e, vcm_vid_nid)
              (elim (Bool-cases (is_neg (vcm_handler net (nid_request v) s).0.0)) [
                | inl f ↦ rw f (failed f e)
                | inr f ↦ rw f (answered f e)
              ])
      ]
