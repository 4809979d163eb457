-- ===== src/Shm.antt =====
-- router/lib/shm.cpp: memory that the router shares with a client, under a name.
pub mod Descriptors
mod Tests
use freelite.Base.{
  ℕ, ◌-◌, ◌^◌, ℤ, pos, minus_one, is_neg, Bytes, Bool, true, false, ◌==◌, if◌then◌else◌,
}
use freelite.Base.State.{M}

-- The calls of the operating system. `shm_open` takes whether it must create the object
-- (`O_CREAT | O_EXCL`); `mmap` maps a size of a descriptor.
pub record SharedMemory (W : Type 0) : Type 0 where
  pub shm_open : Bytes → Bool → M W ℤ
  pub ftruncate : ℤ → ℕ → M W ℤ
  pub mmap : ℕ → ℤ → M W ℕ
  pub munmap : ℕ → ℕ → M W ℤ
  pub shm_unlink : Bytes → M W ℤ

-- MAP_FAILED, ((void *) -1)
abbrev pub map_failed : ℕ
map_failed = 2 ^ 64 - 1

module _ {W : Type 0} (os : SharedMemory W) where
  -- From `ftruncate` on. The result is the error code with what `*addr` holds then.
  unfoldable pub map_shm : ℕ → ℤ → ℕ → M W (ℤ × ℕ)
  map_shm size fd addr w =
      let grown = os.ftruncate fd size w in
      let mapped = os.mmap size fd grown.1 in
      if is_neg grown.0
      then ((minus_one, addr), grown.1)
      else ((if mapped.0 == map_failed then minus_one else pos 0, mapped.0), mapped.1)

  unfoldable pub alloc_shm_mem : Bytes → ℕ → ℕ → M W (ℤ × ℕ)
  alloc_shm_mem name size addr w =
      let created = os.shm_open name true w in
      let opened = os.shm_open name false created.1 in
      if is_neg created.0
      then (if is_neg opened.0
          then ((minus_one, addr), opened.1)
          else map_shm size opened.0 addr opened.1)
      else map_shm size created.0 addr created.1

  unfoldable pub free_shm_mem : Bytes → ℕ → ℕ → M W ℤ
  free_shm_mem name size addr w =
      let unmapped = os.munmap addr size w in
      let unlinked = os.shm_unlink name unmapped.1 in
      if is_neg unmapped.0
      then (minus_one, unmapped.1)
      else (if is_neg unlinked.0 then (minus_one, unlinked.1) else (pos 0, unlinked.1))
