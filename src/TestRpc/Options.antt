-- ===== src/TestRpc/Options.antt =====
-- client/test_rpc.c, `main`: the loop over the options, and the tests that follow it. `getopt_long` and
-- `strtoul` are the C library's: an option comes with the number that `strtoul` makes of its argument.
use freelite.Base.{
  ℕ, ◌%◌, ◌^◌, ◌-◌, ◌≤◌, Bool, true, false, not, ◌||◌, ◌&&◌, ◌==◌, ltb, List, [], ◌∷◌, Option, none,
  some, ◌≡◌, refl, ◌⊎◌, inl, inr, arith, if◌then◌else◌, Option-cases,
}

pub data Argument : Type 0 where
  server client async_latency unknown : Argument
  async_batch remote_nid thread : ℕ → Argument

-- The variables that the options set.
pub record Options : Type 0 where
  pub server_mode : Bool
  pub client_mode : Bool
  pub record_async_latency : Bool
  pub async_batch_size : ℕ
  pub remote_nid : ℕ
  pub nr_threads : ℕ

-- `unsigned int remote_nid = -1`
abbrev pub no_nid : ℕ
no_nid = 2 ^ 32 - 1

abbrev pub defaults : Options
defaults = record {
  server_mode = false;
  client_mode = false;
  record_async_latency = false;
  async_batch_size = 32;
  remote_nid = no_nid;
  nr_threads = 1;
}

-- ASYNC_BATCH_LIMIT
abbrev pub async_batch_limit : ℕ
async_batch_limit = 1024

-- One round of the loop; `none` is `return -1`. An `unsigned long` is stored in an `unsigned int`.
unfoldable pub accept : Argument → Options → Option Options
accept server o = some (record o { server_mode = true })
accept client o = some (record o { client_mode = true })
accept async_latency o = some (record o { record_async_latency = true })
accept (async_batch n) o =
    if ltb async_batch_limit (n % 2 ^ 32)
    then none
    else some (record o { async_batch_size = n % 2 ^ 32 })
accept (remote_nid n) o =
    if ltb 16 (n % 2 ^ 32) then none else some (record o { remote_nid = n % 2 ^ 32 })
accept (thread n) o =
    if ltb 56 (n % 2 ^ 32) then none else some (record o { nr_threads = n % 2 ^ 32 })
accept unknown o = none

unfoldable pub parse : List Argument → Options → Option Options
parse [] o = some o
parse (a ∷ args) o = elim (accept a o) [ none ↦ none | some o' ↦ parse args o' ]

-- The tests after the loop.
unfoldable pub check_modes : Options → Option Options
check_modes o =
    if not o.server_mode && not o.client_mode
    then none
    else (if o.client_mode && (o.remote_nid == no_nid)
        then none
        else (if o.server_mode && (o.remote_nid == no_nid) then none else some o))

unfoldable pub read_options : List Argument → Option Options
unfolding parse check_modes
read_options args = elim (parse args defaults) [ none ↦ none | some o ↦ check_modes o ]

-- What the loop keeps: the numbers are in their ranges, but for a nid that is not given.
record InRange (o : Options) : Type 0 where
  batch : o.async_batch_size ≤ 1024
  threads : o.nr_threads ≤ 56
  nid : (o.remote_nid ≤ 16) ⊎ (o.remote_nid ≡ no_nid)

accept-InRange : (a : Argument) (o o' : Options) → InRange o → accept a o ≡ some o' → InRange o'
unfolding accept
accept-InRange server o o' r h = ground (arith, r.nid)
accept-InRange a o o' r h = ground (arith, r.nid)

parse-InRange :
    (args : List Argument) (o o' : Options) → InRange o → parse args o ≡ some o' → InRange o'
unfolding parse
parse-InRange [] o o' r h = ground (arith, r.nid)
parse-InRange (a ∷ args) o o' r h = elim (Option-cases (accept a o)) [
  | inl e ↦ let h' = rw (e, parse) at h in cc
  | inr (o₁, e) ↦ parse-InRange args o₁ o' (accept-InRange a o o₁ r e) (rw (e, parse) at h)
]

-- Options that `main` accepts name a node from 0 to 16, at most 56 threads, a batch of at most 1024,
-- and a mode.
pub read_options-bounds :
    (args : List Argument) (o : Options)
    → read_options args ≡ some o
    → (o.remote_nid ≤ 16)
      × (o.nr_threads ≤ 56)
      × (o.async_batch_size ≤ 1024)
      × ((o.server_mode || o.client_mode) ≡ true)
unfolding read_options
read_options-bounds args o h = elim (Option-cases (parse args defaults)) [
  | inl e ↦ let h' = rw (e, read_options) at h in cc
  | inr (o', e) ↦
      let r =
        parse-InRange args defaults o'
          (record { batch = omega arith; threads = omega arith; nid = inr refl }) e in
      let h' = rw (e, read_options) at h in ground (arith, r.batch, r.threads, r.nid)
]
