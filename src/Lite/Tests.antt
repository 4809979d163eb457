-- ===== src/Lite/Tests.antt =====
-- Runs of router/lib/lite-lib.c with kernels whose clock counts the reads, and the theorems about it
-- at such runs.
use freelite.Base.{
  ℕ, suc, ℤ, pos, negsuc, minus_one, eq_ℤ, ltb, true, false, ◌||◌, some, ◌≡◌, ◌⊎◌, refl, arith,
  if◌then◌else◌,
}
use freelite.Lite.{
  Kernel, receive_message_fast, send_reply_imm_fast, send_reply_wait, too_big, poll_reply,
}
use freelite.Lite.Polling.{
  FirstWritten, Gives, receive_message_fast-returns, send_reply_imm_fast-returns,
}

-- A kernel that writes its cells two reads after a call.
abbrev ready : Kernel ℕ
ready = record {
  syscall = λ nr args w. (pos 12, 0);
  load_int = λ a w. if ltb w 2 then send_reply_wait else pos 5;
  load_word = λ a w. if ltb w 2 then 0 else 7;
  store_word = λ a x w. w;
  elapse = λ w. suc w;
}

-- A kernel that refuses every call and writes nothing.
abbrev broken : Kernel ℕ
broken = record {
  syscall = λ nr args w. (minus_one, w);
  load_int = λ a w. pos 0;
  load_word = λ a w. 0;
  store_word = λ a x w. w;
  elapse = λ w. suc w;
}

receive_message_fast-returns_example :
    (w' : ℕ) × (r : ℤ) × (w'' : ℕ) × FirstWritten ready 8 2 0 w'
    × (receive_message_fast ready 3 9 100 (pos 64) 8 16 (pos 1) 0 ≡ some (r, w''))
    × Gives ready 9 100 (pos 64) 8 16 (pos 1) 0 (pos 12) w' r w''
receive_message_fast-returns_example =
    receive_message_fast-returns ready 9 100 (pos 64) 8 16 (pos 1) 0 2 3 (λ e. cc) (omega arith)

send_reply_imm_fast-returns_example :
    let sent = send_reply_imm_fast ready 3 (pos 1) 9 100 (pos 8) 200 300 (pos 64) 0 in
    ((too_big (pos 8) || too_big (pos 64)) ≡ true) × (sent ≡ some (negsuc 0, 0))
    ⊎ ((too_big (pos 8) || too_big (pos 64)) ≡ false)
      × ((w : ℕ) × (sent ≡ some (ready.load_int 300 w, w))
          × (eq_ℤ (ready.load_int 300 w) send_reply_wait ≡ false))
send_reply_imm_fast-returns_example =
    send_reply_imm_fast-returns ready (pos 1) 9 100 (pos 8) 200 300 (pos 64) 0 2 3 refl
      (omega arith)

reply_comes : send_reply_imm_fast ready 3 (pos 1) 9 100 (pos 8) 200 300 (pos 64) 0 ≡ some (pos 5, 2)
unfolding send_reply_imm_fast poll_reply
reply_comes = refl
