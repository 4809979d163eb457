-- ===== src/Cluster/Wire.antt =====
-- A network that delivers every message, for tests: the world is the manager with the message on its
-- way to it.
use freelite.Base.{ℤ, pos, minus_one, Option, none, some, refl, arith}
use freelite.Os.{Stream}
use freelite.Vcm.{Vcm, VcmMsg, handle}
use freelite.Cluster.Delivery.{Delivers}

-- The manager and the message on its way to it.
abbrev pub Wire : Type 0
Wire = Vcm × Option VcmMsg

take_answer : VcmMsg → Vcm → Option (VcmMsg × Vcm) → (ℤ × VcmMsg) × Wire
take_answer m v none = ((pos 0, m), (v, none))
take_answer m v (some (m', t)) = ((pos 8, m'), (t, none))

unfoldable pub receive : VcmMsg → Vcm → Option VcmMsg → (ℤ × VcmMsg) × Wire
unfolding take_answer
receive m v none = ((minus_one, m), (v, none))
receive m v (some r) = take_answer m v (handle r v)

abbrev pub wire : Stream Wire VcmMsg VcmMsg
wire = record {
  send = λ fd m w. (pos 8, (w.0, some m));
  recv = λ fd m w. receive m w.0 w.1;
  close = λ fd w. w;
}

pub wire-Delivers : Delivers wire (λ w. w.0)
unfolding receive
wire-Delivers = record {
  unsent = λ fd m w h. cc;
  lost = λ fd m m' w t e sent got. ground (arith, e);
  answered = λ fd m m' w t e sent got. ground (arith, e);
  closing = λ fd w. refl;
}
