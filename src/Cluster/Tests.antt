-- ===== src/Cluster/Tests.antt =====
-- The theorems about the cluster at concrete inputs: a network that delivers, and two routers.
use freelite.Base.{
  ℕ, ◌+◌, ℤ, pos, minus_one, ℤ_discrete, Bytes, Bytes_discrete, is_neg, List, [], ◌∷◌, none, some,
  false, ◌≡◌, refl, arith, ℕ_discrete, incr,
}
use freelite.Base.UnorderedMap.{find, insert}
use freelite.Vcm
use freelite.Vcm.{Vcm, VcmMsg, handle, get_new_vid, get_nid_by_vid}
use freelite.Vcm.Registry.{init-Refines}
use freelite.Routing.{Router, vcm_handler, vcm_join, vcm_vid_nid}
use freelite.Routing.Branches.{nid_request}
use freelite.Routing.Caching.{joins, run, step}
use freelite.Cluster.{Cluster, Event, router_at, start, history}
use freelite.Cluster.Wire.{Wire, wire, wire-Delivers, receive}
use freelite.Cluster.Staleness.{unknown_for_ever}

abbrev node : ℕ → ℤ
node i = pos (3 + i)

abbrev sockets : ℕ → ℤ
sockets i = pos 4

abbrev origin : Wire
origin = (Vcm.init, none)

abbrev here : Bytes
here = 1 ∷ []

abbrev there : Bytes
there = 2 ∷ []

-- Router 0 has a container join, then router 1.
abbrev two_joins : List Event
two_joins =
    record { router = 0; call = joins here } ∷ record { router = 1; call = joins there } ∷ []

abbrev two_joined : Cluster Wire
two_joined = history wire node (start origin sockets) two_joins

there_has_vid_2 : find Bytes_discrete there (two_joined.routing 1).cid_vid_map ≡ some (pos 2)
unfolding history step vcm_join vcm_handler receive handle get_new_vid find insert incr
    Bytes_discrete ℤ_discrete ℕ_discrete
there_has_vid_2 = refl

-- Router 0 asks for vid 2 before that is handed out; the answer stays -1 when it is.
abbrev early : Router Wire
early = router_at (start origin sockets) 0

early_ask : is_neg (vcm_handler wire (nid_request (pos 2)) early).0.0 ≡ false
unfolding vcm_handler receive handle get_nid_by_vid find
early_ask = refl

unknown_for_ever_example :
    let t =
      run wire
        (pos 3)
        (record (vcm_vid_nid wire (pos 2) early).1 { world = two_joined.world })
        [] in
    vcm_vid_nid wire (pos 2) t ≡ (minus_one, t)
unfolding find
unknown_for_ever_example =
    unknown_for_ever wire (λ w. w.0) wire-Delivers (pos 3) (pos 2) early [] two_joined.world []
      init-Refines (omega arith) refl refl early_ask
