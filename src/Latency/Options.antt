-- ===== src/Latency/Options.antt =====
-- client/test_latency.c, `main`: the loop over the options, the arrays and the threads. An option comes
-- with the number that `strtoul` makes of its argument.
pub mod Ranges
pub mod Setup
use freelite.Base.{
  ℕ, zero, suc, ◌+◌, ◌-◌, ◌*◌, ◌%◌, ◌^◌, ℤ, pos, negsuc, minus_one, ltb_ℤ, to_i32, Bytes, List, [],
  ◌∷◌, ◌++◌, Option, none, some, ◌≡◌, if◌then◌else◌,
}
use freelite.Client.{print_pid}

pub data Argument : Type 0 where
  remote_nid thread : ℕ → Argument
  unknown : Argument

-- The two static variables.
pub record Options : Type 0 where
  pub remote_node : ℤ
  pub nr_threads : ℤ

abbrev pub defaults : Options
defaults = record { remote_node = minus_one; nr_threads = pos 1 }

-- One round of the loop; `none` is `return -1`. An `unsigned long` is stored in an `int`.
unfoldable pub accept : Argument → Options → Option Options
accept (remote_nid n) o =
    if ltb_ℤ (pos 16) (to_i32 n) then none else some (record o { remote_node = to_i32 n })
accept (thread n) o =
    if ltb_ℤ (pos 56) (to_i32 n) then none else some (record o { nr_threads = to_i32 n })
accept unknown o = none

unfoldable pub parse : List Argument → Options → Option Options
parse [] o = some o
parse (a ∷ args) o = elim (accept a o) [ none ↦ none | some o' ↦ parse args o' ]

-- With the test after the loop.
unfoldable pub read_options : List Argument → Option Options
unfolding parse
read_options args = elim (parse args defaults) [
  | none ↦ none
  | some o ↦ if ltb_ℤ o.remote_node (pos 1) then none else some o
]

-- `sizeof(...) * nr_threads`, a product of 64-bit words without a sign.
unfoldable pub bytes_for : ℕ → ℤ → ℕ
bytes_for size (pos n) = (size * n) % 2 ^ 64
bytes_for size (negsuc n) = (size * (2 ^ 64 - 1 - n)) % 2 ^ 64

-- The sizes of the arrays `per_rps`, of seven doubles for each thread, and `info`.
abbrev pub per_rps_bytes : Options → ℕ
per_rps_bytes o = bytes_for 56 o.nr_threads

abbrev pub info_bytes : Options → ℕ
info_bytes o = bytes_for 8 o.nr_threads

pub record ThreadInfo : Type 0 where
  pub tid : ℕ
  pub remote_nid : ℤ

-- The loop of `pthread_create` from `i` on, with `left` to go.
unfoldable pub fill_info : ℤ → ℕ → ℕ → List ThreadInfo
fill_info remote_node i zero = []
fill_info remote_node i (suc left) =
    record { tid = i; remote_nid = remote_node } ∷ fill_info remote_node (suc i) left

-- How often that loop runs.
abbrev pub rounds : ℤ → ℕ
rounds (pos n) = n
rounds (negsuc n) = 0

-- The argument of `bind_thread`; a difference of ints.
unfoldable pub cpu_of : ThreadInfo → ℤ
cpu_of info = if ltb_ℤ (pos 55) (pos info.tid) then negsuc (info.tid - 56) else pos (55 - info.tid)

-- "test_latency"
abbrev pub name_prefix : Bytes
name_prefix = b't' ∷ b'e' ∷ b's' ∷ b't' ∷ b'_' ∷ b'l' ∷ b'a' ∷ b't' ∷ b'e' ∷ b'n' ∷ b'c' ∷ b'y' ∷ []

-- `sprintf(shm_name, "%s%05d", "test_latency", info->tid)`
unfoldable pub shm_name : ThreadInfo → Bytes
shm_name info = name_prefix ++ print_pid info.tid
