-- ===== src/Listener/Tests.antt =====
-- The theorems about the main loops at concrete schedules.
use freelite.Base.{false, ℕ, pos, minus_one, true, [], ◌∷◌, ◌++◌, map, ◌≡◌, refl}
use freelite.Listener.{Listener, run}
use freelite.Os.{Stream, Sockets}
use freelite.Vcm.{VcmMsg}
use freelite.Routing
use freelite.Routing.{Router, vcm_conn, vcm_disconn}
use freelite.Lite.{Kernel}
use freelite.Lite.Wrappers
use freelite.Listener.Startup.{ServerOs, listens, start_router, open_server, router_turn}
use freelite.Listener.Startup.Readiness.{IsReady, start_router-IsReady}
use freelite.Listener.Handover.{IsOpen, arrival, many_starts, burst-serves_last}

abbrev listening : Listener
listening = record {
  server_sock = pos 3;
  client_sock = minus_one;
  keep_running = true;
  looping = true;
  unread = 0;
  serving = [];
  closed = [];
}

listening-IsOpen : IsOpen listening
listening-IsOpen = record { loops = refl; keeps = refl }

burst-serves_last_example :
    (run listening (map arrival (4 ∷ 5 ∷ []) ++ arrival 6 ∷ many_starts 3)).serving
    ≡ pos 6 ∷ pos 6 ∷ pos 6 ∷ []
burst-serves_last_example = burst-serves_last listening (4 ∷ 5 ∷ []) 6 listening-IsOpen refl

-- Every call succeeds, and the cluster gives the nid 3.
abbrev sockets : Sockets ℕ
sockets = record {
  socket = λ w. (pos 4, w);
  inet_pton = λ ip. pos 1;
  connect = λ fd ip w. (pos 0, w);
  getpeername = λ fd w. ((pos 0, []), w);
}

abbrev net : Stream ℕ VcmMsg VcmMsg
net = record { send = λ fd m w. (pos 8, w); recv = λ fd m w. ((pos 8, m), w); close = λ fd w. w }

abbrev kernel : Kernel ℕ
kernel = record {
  syscall = λ nr args w. (pos 3, w);
  load_int = λ a w. pos 0;
  load_word = λ a w. 1;
  store_word = λ a x w. w;
  elapse = λ w. w;
}

abbrev server : ServerOs ℕ
server = record {
  socket = λ w. (pos 5, w);
  prepare = λ w. w;
  bind = λ fd w. (pos 0, w);
  listen = λ fd n w. (pos 0, w);
  close = λ fd w. w;
}

abbrev fresh : Router ℕ
fresh = record { routing = Routing.init; world = 0 }

router_listens :
    start_router sockets net kernel server minus_one fresh
    ≡ listens
        (record listening { server_sock = pos 5 })
        (record {
          router_nid = pos 3;
          router = record fresh { routing = record Routing.init { client_sock = pos 4 } };
        })
unfolding start_router vcm_conn Wrappers.join open_server
router_listens = refl

start_router-IsReady_example :
    IsReady sockets net kernel server minus_one fresh
      (start_router sockets net kernel server minus_one fresh)
start_router-IsReady_example = start_router-IsReady sockets net kernel server minus_one fresh

-- After the signal the router gives up its connection to the manager.
router_disconnects :
    (router_turn net
      (record { selected = pos 0; accepted = pos 0; created = pos 0 })
      (record listening { keep_running = false })
      (record fresh { routing = record Routing.init { client_sock = pos 4 } })).1.client_sock
    ≡ minus_one
unfolding router_turn vcm_disconn
router_disconnects = refl
