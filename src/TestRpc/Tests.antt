-- ===== src/TestRpc/Tests.antt =====
-- The theorems about client/test_rpc.c at concrete options, and runs of its loops.
use freelite.Base.{
  ℕ, suc, pos, negsuc, none, false, ltb, ◌&&◌, if◌then◌else◌, true, List, [], ◌∷◌, some, ◌≡◌, refl,
}
use freelite.TestRpc.Options.{
  Argument, client, remote_nid, thread, Options, defaults, accept, read_options,
}
use freelite.Rpc.{zeroed}
use freelite.Client.{Client, ClientOs, rpc_handler, exchange}
use freelite.Client.Calls.{int_call, response}
use freelite.Client.Calls
use freelite.TestRpc.Ring.{Memory, Buffers, awaited, bits_and, rpcs, send_all, rpcs-send_all}
use freelite.TestRpc.Threads.{thread_info}

-- "-c -n 3 --thread=2"
abbrev command_line : List Argument
command_line = client ∷ remote_nid 3 ∷ thread 2 ∷ []

abbrev options : Options
options = record defaults { client_mode = true; remote_nid = 3; nr_threads = 2 }

accepted : read_options command_line ≡ some options
unfolding read_options accept
accepted = refl

-- The second request of the batch of 4 that ends at request 4 is waited for at entry 0, the one of
-- the batch that ends at request 8 past the end.
second_of_first_batch : awaited 4 4 1 ≡ 0
unfolding awaited bits_and
second_of_first_batch = refl

second_of_second_batch : awaited 4 8 1 ≡ 4
unfolding awaited bits_and
second_of_second_batch = refl

-- The router answers 5 to every request, and the world counts the requests. Only the entries 1 to 3
-- of the array wait, for ever.
abbrev os : ClientOs ℕ
os = record {
  net = record {
    send = λ fd m w. (pos 8, suc w);
    recv = λ fd m w. ((pos 8, record m { int_rsp = pos 5 }), w);
    close = λ fd w. w;
  };
  socket = λ w. (pos 3, w);
  cpuset = λ w. none;
  getpid = 42;
  unlink = λ path w. w;
  bind = λ fd path w. (pos 0, w);
  connect = λ fd path w. (pos 0, w);
}

abbrev memory : Memory ℕ
memory = record {
  load_int = λ a w. if ltb 400 a && ltb a 416 then negsuc 100 else pos 0;
  elapse = λ w. w;
}

abbrev buffers : Buffers
buffers = record {
  remote_write = 100;
  remote_read = 200;
  poll_array = 400;
  remote_poll_array = 800;
}

abbrev idle : Client ℕ
idle = record { client_sock = pos 3; cid = []; world = 0 }

nine_sent : (send_all os zeroed (thread_info false 3 0) buffers 4 0 9 idle).world ≡ 9
unfolding send_all Calls.send_reply_imm_fast int_call response rpc_handler exchange
nine_sent = refl

rpcs-send_all_example :
    rpcs os zeroed memory (thread_info false 3 0) buffers 1 4 0 9 idle
    ≡ some (send_all os zeroed (thread_info false 3 0) buffers 4 0 9 idle)
rpcs-send_all_example =
    rpcs-send_all memory 2 buffers (λ w. refl) (λ w. refl) os zeroed (thread_info false 3 0) 0 0 9
      idle
