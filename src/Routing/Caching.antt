-- ===== src/Routing/Caching.antt =====
-- The two maps of routing.cpp as caches: what a call has answered once is answered for good.
use freelite.Base.{
  ℤ, minus_one, ℤ_discrete, Bytes, Bytes_discrete, is_neg, List, [], ◌∷◌, none, some, false, ◌≡◌,
  ◌⊎◌, inl, inr, refl, arith, Bool-cases,
}
use freelite.Base.UnorderedMap.{find, find-insert_self, find-insert_old}
use freelite.Os.{Stream}
use freelite.Vcm.{VcmMsg}
use freelite.Routing.{Router, vcm_handler, vcm_get_node_id, vcm_join, vcm_vid_nid}
use freelite.Routing.Branches.{join_request, nid_request, vcm_join-cases, vcm_vid_nid-cases}
use freelite.Routing.Connection.{vcm_handler-result}

-- A call of one of the functions that change the maps.
pub data Call : Type 0 where
  joins : Bytes → Call
  asks : ℤ → Call

-- Everything in the maps of `s` is in those of `t`.
pub record Extends {W : Type 0} (s t : Router W) : Type 0 where
  pub cids :
      (c : Bytes) (v : ℤ)
      → find Bytes_discrete c s.cid_vid_map ≡ some v
      → find Bytes_discrete c t.cid_vid_map ≡ some v
  pub vids :
      (v n : ℤ)
      → find ℤ_discrete v s.vid_nid_map_cache ≡ some n
      → find ℤ_discrete v t.vid_nid_map_cache ≡ some n

pub Extends-refl : {W : Type 0} (s : Router W) → Extends s s
Extends-refl s = record { cids = λ c v h. h; vids = λ v n h. h }

pub Extends-trans : {W : Type 0} {s t u : Router W} → Extends s t → Extends t u → Extends s u
Extends-trans e f = record {
  cids = λ c v h. f.cids c v (e.cids c v h);
  vids = λ v n h. f.vids v n (e.vids v n h);
}

module _ {W : Type 0} (net : Stream W VcmMsg VcmMsg) where
  unfoldable pub step : ℤ → Router W → Call → Router W
  step router_nid s (joins cid) = (vcm_join net router_nid cid s).1
  step router_nid s (asks vid) = (vcm_vid_nid net vid s).1

  unfoldable pub run : ℤ → Router W → List Call → Router W
  unfolding step
  run router_nid s [] = s
  run router_nid s (c ∷ cs) = run router_nid (step router_nid s c) cs

  vcm_handler-Extends : (msg : VcmMsg) (s : Router W) → Extends s (vcm_handler net msg s).1
  vcm_handler-Extends msg s =
      let (_, same_vids, same_cids) = vcm_handler-result net msg s in
      record { cids = λ c v h. rw same_cids h; vids = λ v n h. rw same_vids h }

  pub vcm_join-Extends : (n : ℤ) (cid : Bytes) (s : Router W) → Extends s (vcm_join net n cid s).1
  vcm_join-Extends n cid s =
      vcm_join-cases net (λ r. Extends s r.1) n cid s (λ _ _. Extends-refl s)
        (λ _ _. vcm_handler-Extends (join_request n) s)
        λ _ _.
          let e = vcm_handler-Extends (join_request n) s in
          record {
            cids = λ c v h. find-insert_old Bytes_discrete cid c _ v _ (e.cids c v h);
            vids = λ v m h. find-insert_old ℤ_discrete _ v n m _ (e.vids v m h);
          }

  pub vcm_vid_nid-Extends : (v : ℤ) (s : Router W) → Extends s (vcm_vid_nid net v s).1
  vcm_vid_nid-Extends v s =
      vcm_vid_nid-cases net (λ r. Extends s r.1) v s (λ _ _. Extends-refl s)
        (λ _ _. vcm_handler-Extends (nid_request v) s)
        λ _ _.
          let e = vcm_handler-Extends (nid_request v) s in
          record {
            cids = e.cids;
            vids = λ w m h. find-insert_old ℤ_discrete v w _ m _ (e.vids w m h);
          }

  run-Extends : (n : ℤ) (s : Router W) (cs : List Call) → Extends s (run n s cs)
  unfolding run
  run-Extends n s [] = Extends-refl s
  run-Extends n s (joins cid ∷ cs) =
      Extends-trans (vcm_join-Extends n cid s) (run-Extends n (vcm_join net n cid s).1 cs)
  run-Extends n s (asks vid ∷ cs) =
      Extends-trans (vcm_vid_nid-Extends vid s) (run-Extends n (vcm_vid_nid net vid s).1 cs)

  pub vcm_join-kept :
      (n : ℤ) (cid : Bytes) (s : Router W)
      → let r = vcm_join net n cid s in
        is_neg r.0 ≡ false → find Bytes_discrete cid r.1.cid_vid_map ≡ some r.0
  vcm_join-kept n cid s =
      vcm_join-cases net
        (λ r. is_neg r.0 ≡ false → find Bytes_discrete cid r.1.cid_vid_map ≡ some r.0) n cid s
        (λ v h _. h) (λ _ _ neg. cc)
        λ _ h _.
          find-insert_self Bytes_discrete cid _ _
            (rw (vcm_handler-result net (join_request n) s).2 h)

  -- The id that a container reads after `vcm_join` is the one that `vcm_join` returned, on success
  -- and on failure.
  pub vcm_get_node_id-vcm_join :
      (n : ℤ) (cid : Bytes) (s : Router W)
      → let r = vcm_join net n cid s in vcm_get_node_id net cid r.1 ≡ r.0
  unfolding vcm_get_node_id
  vcm_get_node_id-vcm_join n cid s =
      vcm_join-cases net (λ r. vcm_get_node_id net cid r.1 ≡ r.0) n cid s (λ v h. ground arith)
        (λ _ h. rw (same h, vcm_get_node_id))
        λ _ h. rw (find-insert_self Bytes_discrete cid _ _ (same h), vcm_get_node_id)
    where
      same :
          find Bytes_discrete cid s.cid_vid_map ≡ none
          → find Bytes_discrete cid (vcm_handler net (join_request n) s).1.cid_vid_map ≡ none
      same h = rw (vcm_handler-result net (join_request n) s).2 h

  -- A container that is in the map keeps its vid, whatever calls follow, and joins again without a
  -- message to the manager.
  pub vcm_join_again :
      (n n' v : ℤ) (cid : Bytes) (s : Router W) (cs : List Call)
      → find Bytes_discrete cid s.cid_vid_map ≡ some v
      → let t = run n s cs in (vcm_join net n' cid t ≡ (v, t)) × (vcm_get_node_id net cid t ≡ v)
  unfolding vcm_join vcm_get_node_id
  vcm_join_again n n' v cid s cs h = let old = (run-Extends n s cs).cids cid v h in ground arith

  vcm_vid_nid_cached :
      (v m : ℤ) (s : Router W)
      → find ℤ_discrete v s.vid_nid_map_cache ≡ some m
      → vcm_vid_nid net v s ≡ (m, s)
  unfolding vcm_vid_nid
  vcm_vid_nid_cached v m s h = ground arith

  vcm_vid_nid_kept :
      (v : ℤ) (s : Router W)
      → is_neg (vcm_handler net (nid_request v) s).0.0 ≡ false
      → let r = vcm_vid_nid net v s in find ℤ_discrete v r.1.vid_nid_map_cache ≡ some r.0
  vcm_vid_nid_kept v s ok =
      vcm_vid_nid-cases net (λ r. find ℤ_discrete v r.1.vid_nid_map_cache ≡ some r.0) v s (λ m h. h)
        (λ failed _. cc)
        λ _ h. find-insert_self ℤ_discrete v _ _ (rw (vcm_handler-result net (nid_request v) s).1 h)

  -- An answer is in the cache, or it is -1.
  pub vcm_vid_nid-found :
      (v : ℤ) (s : Router W)
      → let r = vcm_vid_nid net v s in
        (find ℤ_discrete v r.1.vid_nid_map_cache ≡ some r.0) ⊎ (r.0 ≡ minus_one)
  vcm_vid_nid-found v s = elim (Bool-cases (is_neg (vcm_handler net (nid_request v) s).0.0)) [
    | inr ok ↦ inl (vcm_vid_nid_kept v s ok)
    | inl failed ↦
        vcm_vid_nid-cases net
          (λ r. (find ℤ_discrete v r.1.vid_nid_map_cache ≡ some r.0) ⊎ (r.0 ≡ minus_one)) v s
          (λ m h. inl h) (λ _ _. inr refl) (λ ok _. cc)
  ]

  -- What the manager has answered about a vid stays the answer, whatever calls follow and whatever
  -- the world, with the manager in it, has come to be in between.
  pub vcm_vid_nid_again :
      (n v : ℤ) (s : Router W) (w : W) (cs : List Call)
      → is_neg (vcm_handler net (nid_request v) s).0.0 ≡ false
      → let r = vcm_vid_nid net v s in
        let t = run n (record r.1 { world = w }) cs in vcm_vid_nid net v t ≡ (r.0, t)
  vcm_vid_nid_again n v s w cs ok = vcm_vid_nid_cached v _ _ (
      (run-Extends n (record (vcm_vid_nid net v s).1 { world = w }) cs).vids v _
        (vcm_vid_nid_kept v s ok))
