-- ===== src/Cluster/Requests/Tests.antt =====
-- The theorems about hosts and requests at concrete inputs: two hosts, on each of which a container
-- joins.
use freelite.Base.{
  ℕ, ℤ, pos, ℤ_discrete, Bytes, Bytes_discrete, ℕ_discrete, List, [], ◌∷◌, some, none, ◌≡◌, refl,
  arith, incr,
}
use freelite.Base.UnorderedMap.{find, insert}
use freelite.Vcm
use freelite.Vcm.{handle, get_new_vid}
use freelite.Routing.{vcm_join, vcm_handler}
use freelite.Rpc.{zeroed, join_code, no_req}
use freelite.Router.Dispatch.{dispatch}
use freelite.Cluster.{start}
use freelite.Cluster.Wire.{Wire, wire-Delivers, receive}
use freelite.Cluster.Hosts.{host, host-Leaves}
use freelite.Cluster.Requests.{Request, serve_all, requests-keep_vids_unique}

abbrev here : Bytes
here = 1 ∷ []

abbrev there : Bytes
there = 2 ∷ []

abbrev join_at : ℕ → Bytes → Request
join_at i cid = record {
  router = i;
  cid = cid;
  rsp = zeroed;
  fuel = 0;
  req = record { func_code = join_code; msg_body = no_req };
}

abbrev two_joins : List Request
two_joins = join_at 0 here ∷ join_at 1 there ∷ []

abbrev origin : Wire
origin = (Vcm.init, none)

abbrev sockets : ℕ → ℤ
sockets i = pos 4

there_has_vid_2 :
    find Bytes_discrete there
      ((serve_all host (start origin sockets) two_joins).routing 1).cid_vid_map
    ≡ some (pos 2)
unfolding serve_all dispatch vcm_join vcm_handler receive handle get_new_vid find insert incr
    Bytes_discrete ℤ_discrete ℕ_discrete
there_has_vid_2 = refl

requests-keep_vids_unique_example : (◌≡◌ {A = ℕ} 1 1) × (there ≡ there)
requests-keep_vids_unique_example =
    requests-keep_vids_unique host (λ w. w.0) (λ i. wire-Delivers) host-Leaves origin sockets refl
      two_joins (omega arith) 1 1 there there (pos 2) there_has_vid_2 there_has_vid_2
