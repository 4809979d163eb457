-- ===== src/Client/Log/Recorder.antt =====
-- A world for the tests that keeps the requests it is sent, each as `act` of it.
use freelite.Base.{pos, List, [], ◌∷◌, ◌++◌, none, refl}
use freelite.Rpc.{RpcReqMsg, zeroed}
use freelite.Shm.{SharedMemory}
use freelite.Client.{Client, ClientOs}
use freelite.Client.Log.{Logs}

module _ {A : Type 0} (act : RpcReqMsg → A) where
  abbrev pub os : ClientOs (List A)
  os = record {
    net = record {
      send = λ fd req w. (pos 1, w ++ act req ∷ []);
      recv = λ fd buffer w. ((pos 1, zeroed), w);
      close = λ fd w. w;
    };
    socket = λ w. (pos 3, w);
    cpuset = λ w. none;
    getpid = 1;
    unlink = λ path w. w;
    bind = λ fd path w. (pos 0, w);
    connect = λ fd path w. (pos 0, w);
  }

  abbrev pub shm : SharedMemory (List A)
  shm = record {
    shm_open = λ name create w. (pos 4, w);
    ftruncate = λ fd size w. (pos 0, w);
    mmap = λ size fd w. (8192, w);
    munmap = λ addr size w. (pos 0, w);
    shm_unlink = λ name w. (pos 0, w);
  }

  pub os-Logs : Logs os shm act (λ w. w)
  os-Logs = record {
    send = λ fd req w. (refl, refl);
    recv = λ fd buffer w. (refl, refl);
    shm_open = λ name create w. refl;
    mmap = λ size fd w. refl;
  }

  abbrev pub client : Client (List A)
  client = record { client_sock = pos 3; cid = []; world = [] }
