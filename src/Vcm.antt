-- ===== src/Vcm.antt =====
-- vcm/vcm.cpp and inc/vcm_types.hpp: the virtual cluster manager, which hands out virtual ids (vid)
-- and remembers the node (nid) of each. `vcm_mutex` makes each of its two operations one step.
pub mod Registry
pub mod Uniqueness
pub mod Server
pub mod Serving
mod Tests
use freelite.Base.{
  ℤ, pos, minus_one, ℤ_discrete, incr, eq_ℤ, List, [], Option, none, some, if◌then◌else◌,
}
use freelite.Base.State.{M}
use freelite.Base.UnorderedMap.{find, insert}

-- `struct vcm_msg`
pub record VcmMsg : Type 0 where
  pub func_code : ℤ
  pub id : ℤ

abbrev pub vid_nid : ℤ
vid_nid = pos 0

abbrev pub nid_vid : ℤ
nid_vid = pos 1

-- The static variables of vcm.cpp.
pub record Vcm : Type 0 where
  pub vid : ℤ
  pub vid_nid_map : List (ℤ × ℤ)

abbrev pub init : Vcm
init = record { vid = pos 0; vid_nid_map = [] }

unfoldable pub get_new_vid : ℤ → M Vcm ℤ
get_new_vid nid s =
    let vid = incr s.vid in
    (vid, record { vid = vid; vid_nid_map = insert ℤ_discrete vid nid s.vid_nid_map })

unfoldable pub get_nid_by_vid : ℤ → Vcm → ℤ
get_nid_by_vid vid s = elim (find ℤ_discrete vid s.vid_nid_map) [
  | none ↦ minus_one
  | some nid ↦ nid
]

-- The `switch` of `server_accept_request`: the message that goes back, or `none` for a function
-- code that it does not know.
unfoldable pub handle : VcmMsg → Vcm → Option (VcmMsg × Vcm)
unfolding get_new_vid get_nid_by_vid
handle msg s =
    if eq_ℤ msg.func_code vid_nid
    then some (record msg { id = get_nid_by_vid msg.id s }, s)
    else if eq_ℤ msg.func_code nid_vid
    then some (record msg { id = (get_new_vid msg.id s).0 }, (get_new_vid msg.id s).1)
    else none
