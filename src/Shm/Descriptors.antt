-- ===== src/Shm/Descriptors.antt =====
-- What router/lib/shm.cpp returns, and what it does to the table of open files.
use freelite.Base.{
  ℕ, suc, ℤ, pos, minus_one, is_neg, Bytes, Bool, true, false, ◌≡◌, ◌≢◌, ◌⊎◌, ◌∙◌, arith,
}
use freelite.Shm.{SharedMemory, map_failed, map_shm, alloc_shm_mem, free_shm_mem}

-- How many files the process has open: a `shm_open` that succeeds opens one, and the other calls
-- open and close none.
pub record Counts {W : Type 0} (os : SharedMemory W) (open_files : W → ℕ) : Type 0 where
  pub opens :
      (name : Bytes) (create : Bool) (w : W)
      → is_neg (os.shm_open name create w).0 ≡ false
      → open_files (os.shm_open name create w).1 ≡ suc (open_files w)
  pub opens_not :
      (name : Bytes) (create : Bool) (w : W)
      → is_neg (os.shm_open name create w).0 ≡ true
      → open_files (os.shm_open name create w).1 ≡ open_files w
  pub truncates : (fd : ℤ) (size : ℕ) (w : W) → open_files (os.ftruncate fd size w).1 ≡ open_files w
  pub maps : (fd : ℤ) (size : ℕ) (w : W) → open_files (os.mmap size fd w).1 ≡ open_files w
  pub unmaps : (addr size : ℕ) (w : W) → open_files (os.munmap addr size w).1 ≡ open_files w
  pub unlinks : (name : Bytes) (w : W) → open_files (os.shm_unlink name w).1 ≡ open_files w

module _ {W : Type 0} (os : SharedMemory W) where
  -- `alloc_shm_mem` returns 0 or -1. On 0 the address is not MAP_FAILED.
  pub alloc_shm_mem-result :
      (name : Bytes) (size addr : ℕ) (w : W)
      → let r = (alloc_shm_mem os name size addr w).0 in
        ((r.0 ≡ pos 0) × (r.1 ≢ map_failed)) ⊎ (r.0 ≡ minus_one)
  unfolding alloc_shm_mem map_shm
  alloc_shm_mem-result name size addr w = ground arith

  module _ (open_files : W → ℕ) (c : Counts os open_files) where
    map_shm-open_files :
        (size : ℕ) (fd : ℤ) (addr : ℕ) (w : W)
        → open_files (map_shm os size fd addr w).1 ≡ open_files w
    unfolding map_shm
    map_shm-open_files size fd addr w =
        ground (arith, c.truncates fd size w, c.maps fd size (os.ftruncate fd size w).1)

    alloc_shm_mem-open_files :
        (name : Bytes) (size addr : ℕ) (w : W)
        → let r = alloc_shm_mem os name size addr w in
          is_neg r.0.0 ≡ false → open_files r.1 ≡ suc (open_files w)
    unfolding alloc_shm_mem
    alloc_shm_mem-open_files name size addr w ok =
        let created = os.shm_open name true w in
        let opened = os.shm_open name false created.1 in
        ground (
          arith,
          c.opens name true w,
          c.opens_not name true w,
          c.opens name false created.1,
          map_shm-open_files size created.0 addr created.1,
          map_shm-open_files size opened.0 addr opened.1,
        )

    free_shm_mem-open_files :
        (name : Bytes) (size addr : ℕ) (w : W)
        → open_files (free_shm_mem os name size addr w).1 ≡ open_files w
    unfolding free_shm_mem
    free_shm_mem-open_files name size addr w =
        ground (arith, c.unmaps addr size w, c.unlinks name (os.munmap addr size w).1)

    -- If the calls of the operating system open and close files as `Counts` says, memory that is
    -- allocated without an error and freed again leaves one more file open in the router.
    pub free-alloc_leaks :
        (name : Bytes) (size addr : ℕ) (w : W)
        → let r = alloc_shm_mem os name size addr w in
          is_neg r.0.0 ≡ false
          → open_files (free_shm_mem os name size r.0.1 r.1).1 ≡ suc (open_files w)
    free-alloc_leaks name size addr w ok =
        free_shm_mem-open_files name size _ _ ∙ alloc_shm_mem-open_files name size addr w ok
