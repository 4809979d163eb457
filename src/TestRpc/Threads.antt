-- ===== src/TestRpc/Threads.antt =====
-- client/test_rpc.c, `run`: what each thread is told, and the calls before the threads start.
use freelite.Base.{
  All, ℕ, zero, suc, ◌+◌, ◌-◌, ◌≤◌, pos, Bytes, Bool, true, false, not, List, [], ◌∷◌, Option, none,
  some, ◌≡◌, ◌⊎◌, inl, inr, refl, arith, if◌then◌else◌,
}
use freelite.TestRpc.Options.{Argument, Options, read_options, read_options-bounds}
use freelite.Router.Translation.{Api, register_application, dist_barrier, query_port}

-- `struct thread_info`, without the two fields that `test_async_rpc_send` counts in.
pub record ThreadInfo : Type 0 where
  pub inbound_port : ℕ
  pub outbound_port : ℕ
  pub tid : ℕ
  pub remote_nid : ℕ

abbrev pub base_port : ℕ
base_port = 1

abbrev pub thread_info : Bool → ℕ → ℕ → ThreadInfo
thread_info server_mode remote_node i = record {
  inbound_port = if server_mode then base_port else base_port + 1;
  outbound_port = if server_mode then base_port + 1 else base_port;
  tid = i;
  remote_nid = remote_node;
}

-- The loop over the threads from `i` on, with `left` to go.
unfoldable pub fill_info : Bool → ℕ → ℕ → ℕ → List ThreadInfo
fill_info server_mode remote_node i zero = []
fill_info server_mode remote_node i (suc left) =
    thread_info server_mode remote_node i ∷ fill_info server_mode remote_node (suc i) left

-- "test.1"
abbrev pub application_name : Bytes
application_name = b't' ∷ b'e' ∷ b's' ∷ b't' ∷ b'.' ∷ b'1' ∷ []

-- The calls read `info[0]`; `none` is a read past the end of the array.
unfoldable pub opening_calls : List ThreadInfo → Option (List Api)
opening_calls [] = none
opening_calls (info ∷ infos) = some (
    register_application info.inbound_port 4096 16 application_name 6
    ∷ dist_barrier 2
    ∷ query_port (pos info.remote_nid) (pos info.outbound_port)
    ∷ [])

-- `bind_thread(55 - info->tid)`
unfoldable pub cpu_of : ThreadInfo → ℕ
cpu_of info = 55 - info.tid

-- The CPU of a thread is one of 56, and no other thread's: the subtraction does not go below 0.
abbrev pub HasCpu : ThreadInfo → Type 0
HasCpu info = cpu_of info + info.tid ≡ 55

fill_info-HasCpu :
    (mode : Bool) (node i left : ℕ) → i + left ≤ 56 → All HasCpu (fill_info mode node i left)
unfolding fill_info cpu_of
fill_info-HasCpu mode node i zero h = tt
fill_info-HasCpu mode node i (suc left) h =
    (omega arith, fill_info-HasCpu mode node (suc i) left (omega arith))

abbrev pub calls_of : ℕ → ℕ → ℕ → List Api
calls_of mine theirs node =
    register_application mine 4096 16 application_name 6
    ∷ dist_barrier 2
    ∷ query_port (pos node) (pos theirs)
    ∷ []

-- The calls of a benchmark with `n` threads, in one mode, and those of a peer in the other mode.
abbrev pub Opens : Bool → ℕ → ℕ → Type 0
Opens mode node n =
    ((n ≡ 0) × (opening_calls (fill_info mode node 0 n) ≡ none))
    ⊎ ((mine : ℕ) × (theirs : ℕ) × (opening_calls (fill_info mode node 0 n)
          ≡ some (calls_of mine theirs node))
        × (opening_calls (fill_info (not mode) node 0 n) ≡ some (calls_of theirs mine node)))

opening_calls-Opens : (mode : Bool) (node n : ℕ) → Opens mode node n
unfolding fill_info opening_calls
opening_calls-Opens mode node zero = inl (refl, refl)
opening_calls-Opens true node (suc n) = inr (1, 2, refl, refl)
opening_calls-Opens false node (suc n) = inr (2, 1, refl, refl)

-- With options that `main` accepts, every thread of `run` has a CPU of its own. If there is a thread,
-- the benchmark registers the port that a peer in the other mode queries, and queries the one that
-- such a peer registers. With no thread, it reads past the end of the array.
pub run-Opens :
    (args : List Argument) (o : Options)
    → read_options args ≡ some o
    → All HasCpu (fill_info o.server_mode o.remote_nid 0 o.nr_threads)
      × Opens o.server_mode o.remote_nid o.nr_threads
run-Opens args o h =
    let (_, few, _, _) = read_options-bounds args o h in
    (
      fill_info-HasCpu o.server_mode o.remote_nid 0 o.nr_threads (omega arith),
      opening_calls-Opens o.server_mode o.remote_nid o.nr_threads,
    )
