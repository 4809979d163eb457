-- ===== src/Routing/Tests.antt =====
-- Runs of routing.cpp at concrete inputs, and the theorems about it at such inputs.
use freelite.Base.{ℕ, suc, pos, ℤ_discrete, Bytes, Bytes_discrete, [], ◌∷◌, ◌≡◌, ◌≢◌, refl}
use freelite.Base.UnorderedMap.{find, insert}
use freelite.Os.{Stream}
use freelite.Vcm.{VcmMsg}
use freelite.Routing.{Router, init, vcm_handler, vcm_get_node_id, vcm_join}
use freelite.Routing.Caching.{joins, asks, run, vcm_join_again, vcm_get_node_id-vcm_join}
use freelite.Routing.Shutdown.{IsShut, join_shut}

-- A manager that answers every request with the number of requests so far.
abbrev counting : Stream ℕ VcmMsg VcmMsg
counting = record {
  send = λ fd m w. (pos 8, suc w);
  recv = λ fd m w. ((pos 8, record m { id = pos w }), w);
  close = λ fd w. w;
}

-- A manager that has shut the connection down.
abbrev gone : Stream ℕ VcmMsg VcmMsg
gone = record { send = λ fd m w. (pos 8, w); recv = λ fd m w. ((pos 0, m), w); close = λ fd w. w }

gone-IsShut : IsShut gone
gone-IsShut = record { sends = λ _ _ _. refl; ends = λ _ _ _. refl }

abbrev connected : Router ℕ
connected = record { routing = record init { client_sock = pos 4 }; world = 0 }

-- The ids of two containers.
abbrev first_cid : Bytes
first_cid = 1 ∷ []

abbrev second_cid : Bytes
second_cid = 2 ∷ []

cids_differ : first_cid ≢ second_cid
cids_differ e = cc

-- The container `first_cid` of node 3 has vid 1.
abbrev one_joined : Router ℕ
one_joined = record connected {
  routing = record connected.routing {
    cid_vid_map = (first_cid, pos 1) ∷ [];
    vid_nid_map_cache = (pos 1, pos 3) ∷ [];
  };
}

joined_twice :
    (vcm_join counting (pos 3) second_cid (vcm_join counting (pos 3) first_cid connected).1).0
    ≡ pos 2
unfolding vcm_join vcm_handler find insert Bytes_discrete ℤ_discrete
joined_twice = refl

vcm_get_node_id-vcm_join_example :
    let r = vcm_join counting (pos 3) first_cid connected in
    vcm_get_node_id counting first_cid r.1 ≡ r.0
vcm_get_node_id-vcm_join_example = vcm_get_node_id-vcm_join counting (pos 3) first_cid connected

vcm_join_again_example :
    let t = run counting (pos 3) one_joined (joins second_cid ∷ asks (pos 1) ∷ []) in
    (vcm_join counting (pos 5) first_cid t ≡ (pos 1, t))
    × (vcm_get_node_id counting first_cid t ≡ pos 1)
unfolding find Bytes_discrete
vcm_join_again_example =
    vcm_join_again counting (pos 3) (pos 5) (pos 1) first_cid one_joined
      (joins second_cid ∷ asks (pos 1) ∷ []) refl

join_shut_example :
    let r = vcm_join gone (pos 3) first_cid connected in
    (r.0 ≡ pos 3) × ((vcm_join gone (pos 3) second_cid r.1).0 ≡ pos 3)
unfolding find
join_shut_example =
    join_shut gone gone-IsShut (pos 3) first_cid second_cid connected (λ e. cc) cids_differ refl
      refl
