-- ===== src/Os.antt =====
-- The operating system as the program uses it: a record of calls over a world `W`, which is a
-- parameter of every definition that calls it. A call takes the world and returns its result with
-- the new world. Nothing is assumed of the calls but what a theorem names as a hypothesis.
use freelite.Base.{ℕ, ℤ, Bytes, Option}
use freelite.Base.State.{M}

-- A stream socket: one end sends values of type `A` and receives values of type `B`. `recv` takes
-- what the buffer holds and returns its result with what the buffer holds then.
pub record Stream (W A B : Type 0) : Type 0 where
  pub send : ℤ → A → M W ℤ
  pub recv : ℤ → B → M W (ℤ × B)
  pub close : ℤ → W → W

-- What `vcm_conn` and the servers call beside it.
pub record Sockets (W : Type 0) : Type 0 where
  pub socket : M W ℤ
  pub inet_pton : Bytes → ℤ
  pub connect : ℤ → Bytes → M W ℤ
  pub getpeername : ℤ → M W (ℤ × Bytes)

-- The C library's `memset`, with the address, the byte and the count. `none` is a fault.
abbrev pub Memset : Type 0 → Type 0
Memset W = ℕ → ℕ → ℕ → W → Option W
