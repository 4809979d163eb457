-- ===== src/Threads/Worker.antt =====
-- A thread of a router in a call of router/lib/routing.cpp, one access at a time. `map_mutex` is held
-- from the `lock_guard` at the start of each function to its return.
use freelite.Base.{
  ℕ, ℤ, minus_one, ℤ_discrete, Bytes, Bytes_discrete, Bool, true, false, Option, none, some, ◌≡◌,
  ◌≢◌,
}
use freelite.Base.UnorderedMap.{find, insert}
use freelite.Vcm.{VcmMsg}
use freelite.Routing.{Routing}
-- What is asked of the manager, by `vcm_join` and by `vcm_vid_nid`.
pub use freelite.Routing.Caching.{Call as Query, joins, asks}
use freelite.Routing.Branches.{join_request, nid_request}

-- A call of one of these two, or of `vcm_get_node_id`.
pub data Call : Type 0 where
  query : Query → Call
  reads : Bytes → Call

-- What is on the connection to the manager.
pub data Wire : Type 0 where
  empty : Wire
  request : VcmMsg → Wire
  response : VcmMsg → Wire

-- A router: its static variables, its connection, and the thread that holds `map_mutex`.
pub record Host : Type 0 where
  pub routing : Routing
  pub wire : Wire
  pub holder : Option ℕ

-- Where a thread stands, with what its local variables hold there.
pub data Pc : Type 0 where
  idle : Pc  -- in no call
  blocked : Call → Pc  -- at the `lock_guard`
  looking : Call → Pc  -- before `find`
  asking : Query → Pc  -- before `vcm_handler`
  awaiting : Query → Pc  -- in `vcm_handler`, between `send` and `recv`
  answered : Query → ℤ → Pc  -- after `vcm_handler` has returned 0, with `msg.id`
  returning : Call → ℤ → Pc  -- with the result, before the lock is released

abbrev pub critical : Pc → Bool
critical idle = false
critical (blocked c) = false
critical _ = true

-- The result of `find`.
abbrev pub known : Call → Routing → Option ℤ
known (query (joins cid)) r = find Bytes_discrete cid r.cid_vid_map
known (query (asks vid)) r = find ℤ_discrete vid r.vid_nid_map_cache
known (reads cid) r = find Bytes_discrete cid r.cid_vid_map

abbrev pub message : ℤ → Query → VcmMsg
message router_nid (joins cid) = join_request router_nid
message router_nid (asks vid) = nid_request vid

-- The insertions after an answer.
abbrev pub remember : ℤ → Query → ℤ → Routing → Routing
remember router_nid (joins cid) vid r = record r {
  cid_vid_map = insert Bytes_discrete cid vid r.cid_vid_map;
  vid_nid_map_cache = insert ℤ_discrete vid router_nid r.vid_nid_map_cache;
}
remember router_nid (asks vid) nid r = record r {
  vid_nid_map_cache = insert ℤ_discrete vid nid r.vid_nid_map_cache;
}

-- `vcm_disconn`. What is on its way to the manager stays so.
abbrev pub disconnected : Host → Host
disconnected h = record h { routing = record h.routing { client_sock = minus_one } }

-- One step of thread `t`.
pub data Move (router_nid : ℤ) (t : ℕ) (h : Host) : Pc → Host → Pc → Type 0 where
  call : (c : Call) → Move router_nid t h idle h (blocked c)
  lock :
      (c : Call)
      → h.holder ≡ none
      → Move router_nid t h (blocked c) (record h { holder = some t }) (looking c)
  hit :
      (c : Call) (n : ℤ)
      → known c h.routing ≡ some n
      → Move router_nid t h (looking c) h (returning c n)
  miss :
      (q : Query)
      → known (query q) h.routing ≡ none
      → Move router_nid t h (looking (query q)) h (asking q)
  miss_read :
      (cid : Bytes)
      → known (reads cid) h.routing ≡ none
      → Move router_nid t h (looking (reads cid)) h (returning (reads cid) minus_one)
  no_socket :
      (q : Query)
      → h.routing.client_sock ≡ minus_one
      → Move router_nid t h (asking q) h (returning (query q) minus_one)
  send :
      (q : Query)
      → h.routing.client_sock ≢ minus_one
      → Move router_nid t h
          (asking q)
          (record h { wire = request (message router_nid q) })
          (awaiting q)
  recv :
      (q : Query) (m : VcmMsg)
      → h.wire ≡ response m
      → Move router_nid t h (awaiting q) (record h { wire = empty }) (answered q m.id)
  store :
      (q : Query) (id : ℤ)
      → Move router_nid t h
          (answered q id)
          (record h { routing = remember router_nid q id h.routing })
          (returning (query q) id)
  unlock :
      (c : Call) (n : ℤ) → Move router_nid t h (returning c n) (record h { holder = none }) idle

-- The calls of the operating system that fail.
pub data Fault (h : Host) : Pc → Host → Pc → Type 0 where
  send_fails :
      (q : Query)
      → h.routing.client_sock ≢ minus_one
      → Fault h (asking q) (disconnected h) (returning (query q) minus_one)
  recv_fails : (q : Query) → Fault h (awaiting q) (disconnected h) (returning (query q) minus_one)
