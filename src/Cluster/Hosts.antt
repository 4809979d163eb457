-- ===== src/Cluster/Hosts.antt =====
-- Hosts for the tests: their routers share a test network to the manager.
use freelite.Base.{ℕ, ◌+◌, pos, refl}
use freelite.Router.{Env}
use freelite.Router.Effects.{Leaves}
use freelite.Cluster.Wire.{Wire, wire}

-- Host i is node 3 + i. The kernel answers with the number of the system call.
abbrev pub host : ℕ → Env Wire
host i = record {
  vcm = wire;
  kernel = record {
    syscall = λ nr args w. (pos nr, w);
    load_int = λ a w. pos 0;
    load_word = λ a w. 1;
    store_word = λ a x w. w;
    elapse = λ w. w;
  };
  shm = record {
    shm_open = λ name create w. (pos 6, w);
    ftruncate = λ fd size w. (pos 0, w);
    mmap = λ size fd w. (4096, w);
    munmap = λ addr size w. (pos 0, w);
    shm_unlink = λ name w. (pos 0, w);
  };
  router_nid = pos (3 + i);
  descriptor_at = 8;
  ret_length_at = 16;
}

pub host-Leaves : (i : ℕ) → Leaves (host i) (λ w. w.0)
host-Leaves i = record {
  syscall = λ _ _ _. refl;
  store_word = λ _ _ _. refl;
  elapse = λ _. refl;
  shm_open = λ _ _ _. refl;
  ftruncate = λ _ _ _. refl;
  mmap = λ _ _ _. refl;
  munmap = λ _ _ _. refl;
  shm_unlink = λ _ _. refl;
}
