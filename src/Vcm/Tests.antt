-- ===== src/Vcm/Tests.antt =====
-- Runs of the manager at concrete inputs, and the theorems about it at such inputs.
use freelite.Base.{ℤ, pos, minus_one, List, [], ◌∷◌, ◌≡◌, refl, arith, ℤ_discrete, incr}
use freelite.Base.UnorderedMap.{find, insert}
use freelite.Os.{Stream, Sockets}
use freelite.Vcm.{Vcm, VcmMsg, init, vid_nid, nid_vid, get_new_vid, get_nid_by_vid, handle}
use freelite.Vcm.Uniqueness.{leaves, registered, registrations_are_remembered}
use freelite.Vcm.Registry.{
  Refines, Agrees, answer, init-Refines, get_new_vid-Refines, handle-Refines,
}
use freelite.Vcm.Server.{round, exited, server_accept_request}
use freelite.Vcm.Serving.{Grows, Closed, server_accept_request-Grows}

-- The manager after nodes 3 and 5 have registered a container each.
abbrev two_nids : List ℤ
two_nids = pos 3 ∷ pos 5 ∷ []

abbrev two_vids : Vcm
two_vids = (get_new_vid (pos 5) (get_new_vid (pos 3) init).1).1

two_vids-Refines : Refines two_vids two_nids
two_vids-Refines =
    (get_new_vid-Refines (get_new_vid (pos 3) init).1 (pos 3 ∷ []) (pos 5)
      (get_new_vid-Refines init [] (pos 3) init-Refines (omega arith)).0 (omega arith)).0

second_vid : get_nid_by_vid (pos 2) two_vids ≡ pos 5
unfolding get_new_vid get_nid_by_vid find insert incr ℤ_discrete
second_vid = refl

unknown_vid : get_nid_by_vid (pos 3) two_vids ≡ minus_one
unfolding get_new_vid get_nid_by_vid find insert incr ℤ_discrete
unknown_vid = refl

abbrev ask_second : VcmMsg
ask_second = record { func_code = vid_nid; id = pos 2 }

handle-Refines_example : Agrees (handle ask_second two_vids) (answer ask_second two_nids)
handle-Refines_example = handle-Refines ask_second two_vids two_nids two_vids-Refines (omega arith)

-- A peer that sends the requests of a list and then shuts its end; the world is the list and
-- whether the socket is closed.
abbrev script : Stream (List VcmMsg × List ℤ) VcmMsg VcmMsg
script = record {
  send = λ fd m w. (pos 8, w);
  recv = λ fd m w. elim w.0 [ [] ↦ ((pos 0, m), w) | r ∷ rest ↦ ((pos 8, r), (rest, w.1)) ];
  close = λ fd w. (w.0, fd ∷ w.1);
}

abbrev plain_sockets : {W : Type 0} → Sockets W
plain_sockets = record {
  socket = λ w. (pos 4, w);
  inet_pton = λ ip. pos 1;
  connect = λ fd ip w. (pos 0, w);
  getpeername = λ fd w. ((pos 0, []), w);
}

abbrev one_request : List VcmMsg × List ℤ
one_request = (record { func_code = nid_vid; id = pos 9 } ∷ [], [])

server_accept_request-Grows_example :
    let r = server_accept_request plain_sockets script (pos 6) 5 two_vids one_request in
    Grows 5 two_nids r.1.vcm × Closed script (pos 6) r
server_accept_request-Grows_example =
    server_accept_request-Grows plain_sockets script (pos 6) 5 two_vids one_request two_nids
      two_vids-Refines (omega arith)

-- The thread answers the request, meets the end of the stream, closes the socket and ends.
served : (server_accept_request plain_sockets script (pos 6) 5 two_vids one_request).0 ≡ exited
unfolding server_accept_request handle get_new_vid get_nid_by_vid find insert incr ℤ_discrete round
served = refl

-- A question between two registrations, or a code that is not known.
abbrev with_question : List VcmMsg
with_question =
    record { func_code = nid_vid; id = pos 4 }
    ∷ record { func_code = vid_nid; id = pos 1 }
    ∷ record { func_code = nid_vid; id = pos 4 }
    ∷ []

abbrev with_unknown : List VcmMsg
with_unknown =
    record { func_code = nid_vid; id = pos 4 }
    ∷ record { func_code = nid_vid; id = pos 4 }
    ∷ record { func_code = pos 9; id = pos 1 }
    ∷ []

same_state : leaves with_question init ≡ leaves with_unknown init
unfolding leaves handle get_new_vid get_nid_by_vid find insert incr ℤ_discrete
same_state = refl

registrations_are_remembered_example : registered with_question ≡ registered with_unknown
registrations_are_remembered_example =
    registrations_are_remembered with_question with_unknown (omega arith) (omega arith) same_state
