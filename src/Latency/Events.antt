-- ===== src/Latency/Events.antt =====
-- What the threads of client/test_latency.c do before and after the allocation of remote memory.
use freelite.Base.{pos, ◌⊎◌, inr, ℤ, List, [], ◌∷◌, ◌++◌, All, ◌≡◌, refl, to_u32}
use freelite.Latency.Thread.{Event, allocates, writes, reads, stores}

-- What the threads have done before the allocation, and what they have done when it has given `v`.
abbrev pub Unallocated : Event → Type 0
Unallocated (allocates v) = ⊥
Unallocated (writes h size) = h ≡ 0
Unallocated (reads h size) = ⊥
Unallocated (stores i) = Unit

abbrev pub Uses : ℤ → Event → Type 0
Uses v (allocates k) = k ≡ v
Uses v (writes h size) = (h ≡ to_u32 v) ⊎ (h ≡ 0)
Uses v (reads h size) = h ≡ to_u32 v
Uses v (stores i) = Unit

unfoldable pub allocations : List Event → List ℤ
allocations [] = []
allocations (allocates v ∷ es) = v ∷ allocations es
allocations (writes h size ∷ es) = allocations es
allocations (reads h size ∷ es) = allocations es
allocations (stores i ∷ es) = allocations es

pub allocations-Unallocated : (es : List Event) → All Unallocated es → allocations es ≡ []
unfolding allocations
allocations-Unallocated [] h = refl
allocations-Unallocated (writes _ _ ∷ es) (_, h) = allocations-Unallocated es h
allocations-Unallocated (stores _ ∷ es) (_, h) = allocations-Unallocated es h
allocations-Unallocated (allocates _ ∷ es) (e, _) = absurd e
allocations-Unallocated (reads _ _ ∷ es) (e, _) = absurd e

pub Unallocated-Uses : (v : ℤ) (es : List Event) → All Unallocated es → All (Uses v) es
Unallocated-Uses v [] h = tt
Unallocated-Uses v (writes _ _ ∷ es) (e, h) = (inr e, Unallocated-Uses v es h)
Unallocated-Uses v (stores _ ∷ es) (e, h) = (tt, Unallocated-Uses v es h)
Unallocated-Uses v (allocates _ ∷ es) (e, _) = absurd e
Unallocated-Uses v (reads _ _ ∷ es) (e, _) = absurd e

pub to_u32-zero : to_u32 (pos 0) ≡ 0
unfolding to_u32
to_u32-zero = refl

pub allocations-append :
    (es fs : List Event) → allocations es ≡ [] → allocations (es ++ fs) ≡ allocations fs
unfolding allocations
allocations-append [] fs h = refl
allocations-append (allocates v ∷ es) fs h = cc
allocations-append (writes _ _ ∷ es) fs h = allocations-append es fs h
allocations-append (reads _ _ ∷ es) fs h = allocations-append es fs h
allocations-append (stores _ ∷ es) fs h = allocations-append es fs h
