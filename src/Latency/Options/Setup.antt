-- ===== src/Latency/Options/Setup.antt =====
-- What the options of client/test_latency.c that `main` accepts mean for its threads.
use freelite.Base.{
  All, ℕ, zero, suc, ◌+◌, ◌-◌, ◌*◌, ◌^◌, ◌≤◌, ◌<◌, ℤ, pos, ltb_ℤ, IsInt, Bytes, Bool, true, false,
  ◌&&◌, ◌==◌, List, [], ◌∷◌, ◌++◌, length, drop, some, ◌≡◌, ◌≢◌, ◌⊎◌, inl, inr, refl, sym, ap, ◌∙◌,
  arith, ℕ_discrete, Bool-cases, map,
}
use freelite.Latency.Options.Ranges.{nid_range, read_options-InRange, bytes_for-range}
use freelite.Client.{print_pid, decimal, zeros}
use freelite.Latency.Thread.{Event, allocates, writes, reads, stores}
use freelite.Latency.System.{System, Reach}
use freelite.Latency.Safety.{InArray, stores_in_bounds}
use freelite.Latency.Options.{
  Argument, Options, read_options, bytes_for, per_rps_bytes, info_bytes, ThreadInfo, fill_info,
  rounds, cpu_of, name_prefix, shm_name,
}

-- The number that digits spell after `acc`.
value : Bytes → ℕ → ℕ
value [] acc = acc
value (c ∷ s) acc = value s (acc * 10 + (c - b'0'))

-- A number of a thread has five digits, and they spell it.
named_well : ℕ → Bool
named_well t = (value (print_pid t) 0 == t) && (length (print_pid t) == 5)

all_below : ℕ → (ℕ → Bool) → Bool
all_below zero p = true
all_below (suc n) p = let rest = all_below n p in p n && rest

all_below_lem : (n : ℕ) (p : ℕ → Bool) → all_below n p ≡ true → (t : ℕ) → t < n → p t ≡ true
unfolding all_below
all_below_lem zero p h t small = absurd (omega arith)
all_below_lem (suc n) p h t small = elim (Bool-cases (p n)) [
  | inl e ↦ elim (ℕ_discrete n t) [
    | yes same ↦ ap p (sym same) ∙ e
    | no other ↦ all_below_lem n p (rw e at h) t (omega arith)
  ]
  | inr e ↦ absurd (let h' = rw e at h in cc)
]

every_named_well : all_below 56 named_well ≡ true
unfolding all_below named_well value print_pid decimal zeros
every_named_well = refl

digits_lem : (t : ℕ) → t < 56 → (value (print_pid t) 0 ≡ t) × (length (print_pid t) ≡ 5)
unfolding named_well
digits_lem t small =
    let h = all_below_lem 56 named_well every_named_well t small in (ground arith, ground arith)

-- The CPU is one of 0 to 55, and no other thread's.
abbrev pub HasCpu : ThreadInfo → Type 0
HasCpu info = (c : ℕ) × (cpu_of info ≡ pos c) × (c + info.tid ≡ 55)

-- With the zero at its end the name fits in `char shm_name[18]`.
abbrev pub NameFits : ThreadInfo → Type 0
NameFits info = length (shm_name info) + 1 ≤ 18

abbrev pub Apart : List Bytes → Type 0
Apart [] = Unit
Apart (x ∷ xs) = All (λ y. x ≢ y) xs × Apart xs

-- The entry lies in an array of so many bytes.
abbrev pub InBytes : ℕ → Event → Type 0
InBytes size (stores i) = 8 * i + 8 ≤ size
InBytes size _ = Unit

module _ (node : ℤ) where
  fill_info-HasCpu : (i left : ℕ) → i + left ≤ 56 → All HasCpu (fill_info node i left)
  unfolding fill_info cpu_of
  fill_info-HasCpu i zero h = tt
  fill_info-HasCpu i (suc left) h =
      ((55 - i, ground arith, omega arith), fill_info-HasCpu (suc i) left (omega arith))

  fill_info-NameFits : (i left : ℕ) → i + left ≤ 56 → All NameFits (fill_info node i left)
  unfolding fill_info shm_name
  fill_info-NameFits i zero h = tt
  fill_info-NameFits i (suc left) h =
      let d = digits_lem i (omega arith) in
      (omega (arith, d), fill_info-NameFits (suc i) left (omega arith))

  names_differ :
      (t : ℕ) (i left : ℕ)
      → t < i
      → i + left ≤ 56
      → All
          (λ y. shm_name (record { tid = t; remote_nid = node }) ≢ y)
          (map shm_name (fill_info node i left))
  unfolding fill_info shm_name
  names_differ t i zero h h' = tt
  names_differ t i (suc left) h h' =
      (other, names_differ t (suc i) left (omega arith) (omega arith))
    where
      other : name_prefix ++ print_pid t ≢ name_prefix ++ print_pid i
      other e =
          let d = digits_lem t (omega arith) in
          let d' = digits_lem i (omega arith) in
          let v : value (print_pid t) 0 ≡ value (print_pid i) 0 = ap (λ s. value (drop 12 s) 0) e in
          omega (arith, d, d', v)

  names-Apart : (i left : ℕ) → i + left ≤ 56 → Apart (map shm_name (fill_info node i left))
  unfolding fill_info
  names-Apart i zero h = tt
  names-Apart i (suc left) h = (
    names_differ i (suc i) left (omega arith) (omega arith),
    names-Apart (suc i) left (omega arith),
  )

All-InBytes :
    (n size : ℕ) (es : List Event) → 56 * n ≤ size → All (InArray n) es → All (InBytes size) es
All-InBytes n size [] e all = tt
All-InBytes n size (stores i ∷ es) e (small, all) = (omega arith, All-InBytes n size es e all)
All-InBytes n size (allocates v ∷ es) e (small, all) = (tt, All-InBytes n size es e all)
All-InBytes n size (writes k b ∷ es) e (small, all) = (tt, All-InBytes n size es e all)
All-InBytes n size (reads k b ∷ es) e (small, all) = (tt, All-InBytes n size es e all)

-- The entries lie in the array also when it has none, for a number of threads below 0.
rates-InBytes :
    (z : ℤ) {s : System}
    → ltb_ℤ (pos 56) z ≡ false
    → IsInt z
    → Reach (rounds z) s
    → All (InBytes (bytes_for 56 z)) s.log
rates-InBytes z {s} few int r =
    All-InBytes (rounds z) (bytes_for 56 z) s.log enough (stores_in_bounds (rounds z) r)
  where
    enough : 56 * rounds z ≤ bytes_for 56 z
    enough = elim ((bytes_for-range z few int).1) [
      | inl (_, size) ↦ omega (arith, size)
      | inr (none_, _) ↦ omega (arith, none_)
    ]

-- Options that `main` accepts name a node from 1 to 16 and at most 56 threads. However the threads
-- interleave, each has a CPU of its own from 0 to 55 and a name of its own that fits in `shm_name`,
-- and every rate is written within the bytes of `per_rps`. The number of threads is not negative, or
-- `info` is asked for with 2 ^ 63 bytes or more.
pub accepted_threads_fit :
    (args : List Argument) (o : Options)
    → read_options args ≡ some o
    → {s : System} → Reach (rounds o.nr_threads) s
    → ((nid : ℕ) × (o.remote_node ≡ pos nid) × (1 ≤ nid) × (nid ≤ 16))
      × (rounds o.nr_threads ≤ 56)
      × All HasCpu (fill_info o.remote_node 0 (rounds o.nr_threads))
      × All NameFits (fill_info o.remote_node 0 (rounds o.nr_threads))
      × Apart (map shm_name (fill_info o.remote_node 0 (rounds o.nr_threads)))
      × All (InBytes (per_rps_bytes o)) s.log
      × ((o.nr_threads ≡ pos (rounds o.nr_threads)) ⊎ (2 ^ 63 ≤ info_bytes o))
accepted_threads_fit args o h r =
    let (range, high) = read_options-InRange args o h in
    let (few, size) = bytes_for-range o.nr_threads range.few range.int in
    (
      nid_range o.remote_node range.nid high,
      few,
      fill_info-HasCpu o.remote_node 0 (rounds o.nr_threads) (omega (arith, few)),
      fill_info-NameFits o.remote_node 0 (rounds o.nr_threads) (omega (arith, few)),
      names-Apart o.remote_node 0 (rounds o.nr_threads) (omega (arith, few)),
      rates-InBytes o.nr_threads range.few range.int r,
      elim size [ inl (e, _) ↦ inl e | inr (_, big) ↦ inr big ],
    )
