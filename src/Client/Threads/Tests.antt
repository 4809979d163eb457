-- ===== src/Client/Threads/Tests.antt =====
-- The theorems about the threads of an application with a router that counts its requests.
use freelite.Base.{ℕ, suc, ◌+◌, pos, [], ◌∷◌, ◌++◌, map, ◌≡◌, ◌⊎◌, refl, ◌≢◌, sym, ◌∙◌, ℕ_discrete}
use freelite.Rpc.{RpcReqMsg, RpcRspMsg, zeroed, no_req, get_node_id_code, join_code}
use freelite.Cluster.{update, update_other}
use freelite.Client.Threads.{
  Pc, idle, sending, System, Reach, receiving, returned, call, send, answers,
}
use freelite.Client.Threads.Answered.{own_answers, exclusive_calls_are_answered}
use freelite.Client.Threads.Order.{count, waits, responses_in_order}
use freelite.Client.Threads.Exclusive.{responses_may_cross, Serial, serial_start, serial_later}

-- It answers with the code of the request and the number of requests before it.
abbrev counting : RpcReqMsg → ℕ → RpcRspMsg × ℕ
counting req n = (
  record zeroed {
    int_rsp = req.func_code;
    msg_body = record { descriptor = n; ret_length = pos 0 };
  },
  suc n,
)

abbrev asks_node : RpcReqMsg
asks_node = record { func_code = get_node_id_code; msg_body = no_req }

abbrev asks_join : RpcReqMsg
asks_join = record { func_code = join_code; msg_body = no_req }

abbrev crossed :
    (s : System ℕ) × Reach counting 0 s
    × (s.pc 0 ≡ returned asks_node (counting asks_join 1).0)
    × (s.pc 1 ≡ returned asks_join (counting asks_node 0).0)
crossed = responses_may_cross counting 0 asks_node asks_join

responses_may_cross_example :
    (s : System ℕ) × Reach counting 0 s
    × (s.pc 0 ≡ returned asks_node (counting asks_join 1).0)
    × (s.pc 1 ≡ returned asks_join (counting asks_node 0).0)
responses_may_cross_example = responses_may_cross counting 0 asks_node asks_join

responses_in_order_example :
    (count 0 crossed.0.sent ≡ count 0 crossed.0.received + waits (crossed.0.pc 0))
    × (map (λ m. m.1) crossed.0.received
          ++ (crossed.0.responses ++ answers counting crossed.0.router crossed.0.requests)
        ≡ answers counting 0 (map (λ m. m.1) crossed.0.sent))
responses_in_order_example = responses_in_order counting crossed.1 0

zero_only :
    (pc : ℕ → Pc) (p : Pc)
    → ((t : ℕ) → 0 ≢ t → pc t ≡ idle)
    → (t u : ℕ) (q q' : RpcReqMsg) → update pc 0 p t ≡ receiving q
    → update pc 0 p u ≡ receiving q'
    → t ≡ u
zero_only pc p rest t u q q' e e' = sym (is_zero t q e) ∙ is_zero u q' e'
  where
    is_zero : (t : ℕ) (q : RpcReqMsg) → update pc 0 p t ≡ receiving q → 0 ≡ t
    is_zero t q e = elim (ℕ_discrete 0 t) [
      | yes same ↦ same
      | no other ↦ cc (e, update_other pc 0 t p other, rest t other)
    ]

-- One thread has sent its request.
abbrev sent_once : (s : System ℕ) × Serial counting 0 s
unfolding ℕ_discrete
sent_once = (
  _,
  serial_later
      (serial_later serial_start (call 0 asks_node refl)
        (zero_only (λ t. idle) (sending asks_node) (λ t _. refl)))
      (send 0 asks_node refl)
      (zero_only (update (λ t. idle) 0 (sending asks_node)) (receiving asks_node)
        (λ t other. update_other (λ t. idle) 0 t (sending asks_node) other)),
)

exclusive_calls_are_answered_example :
    (sent_once.0.received ≡ own_answers counting 0 sent_once.0.sent)
    ⊎ ((t : ℕ) × (req : RpcReqMsg) × (rsp : RpcRspMsg) × (sent_once.0.pc t ≡ receiving req)
        × (sent_once.0.received ++ (t, rsp) ∷ [] ≡ own_answers counting 0 sent_once.0.sent))
exclusive_calls_are_answered_example = exclusive_calls_are_answered counting sent_once.1
