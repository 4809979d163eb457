-- ===== src/Shm/Tests.antt =====
-- The theorems about router/lib/shm.cpp, with an operating system whose state is the number of files
-- that are open.
use freelite.Base.{ℕ, suc, pos, is_neg, Bytes, false, ◌∷◌, [], ◌≡◌, refl}
use freelite.Shm.{SharedMemory, alloc_shm_mem, map_shm}

-- Every call succeeds, and memory lies at the address 4096.
abbrev counting : SharedMemory ℕ
counting = record {
  shm_open = λ name create w. (pos w, suc w);
  ftruncate = λ fd size w. (pos 0, w);
  mmap = λ size fd w. (4096, w);
  munmap = λ addr size w. (pos 0, w);
  shm_unlink = λ name w. (pos 0, w);
}

abbrev name : Bytes
name = 97 ∷ []

allocates : (alloc_shm_mem counting name 64 0 3).0 ≡ (pos 0, 4096)
unfolding alloc_shm_mem map_shm
allocates = refl

succeeds : is_neg (alloc_shm_mem counting name 64 0 3).0.0 ≡ false
unfolding alloc_shm_mem map_shm
succeeds = refl
