-- ===== src/MockRouter/Replies.antt =====
-- What a client of client/test_server.c receives.
use freelite.Base.{
  ℕ, zero, suc, ◌<◌, ℤ, pos, is_neg, eq_ℤ, List, [], ◌∷◌, ◌++◌, length, none, some, ◌≡◌, refl, sym,
  ◌∙◌, false, arith, Option-cases, inl, inr,
}
use mathlib.Core.Path.{ap₂}
use mathlib.Core.List.{append-nil, append_assoc}
use freelite.Os.{Stream, Sockets}
use freelite.Rpc.{RpcReqMsg, RpcRspMsg, zeroed}
use freelite.Router.Server.{running, exited}
use freelite.MockRouter.{
  answer, Session, hang_up, reply, respond, round, rounds, server_accept_request,
}

-- A socket whose client has sent the requests `pending`, and sends no more: they are received one by
-- one, and then the end of the stream. Every response arrives.
pub record Delivers {W : Type 0} (net : Stream W RpcRspMsg RpcReqMsg) (fd : ℤ)
    (pending : W → List RpcReqMsg) (arrived : W → List RpcRspMsg) : Type 0 where
  pub next :
      (buffer req : RpcReqMsg) (rest : List RpcReqMsg) (w : W)
      → pending w ≡ req ∷ rest
      → let got = net.recv fd buffer w in
        (is_neg got.0.0 ≡ false)
        × (eq_ℤ got.0.0 (pos 0) ≡ false)
        × (got.0.1 ≡ req)
        × (pending got.1 ≡ rest)
        × (arrived got.1 ≡ arrived w)
  pub end_ :
      (buffer : RpcReqMsg) (w : W)
      → pending w ≡ []
      → let got = net.recv fd buffer w in (got.0.0 ≡ pos 0) × (arrived got.1 ≡ arrived w)
  pub sends :
      (rsp : RpcRspMsg) (w : W)
      → let sent = net.send fd rsp w in
        (is_neg sent.0 ≡ false)
        × (pending sent.1 ≡ pending w)
        × (arrived sent.1 ≡ arrived w ++ rsp ∷ [])
  pub closes : (w : W) → arrived (net.close fd w) ≡ arrived w

-- The responses to requests in a row, up to one that is refused. A response starts from the one
-- before it.
unfoldable pub replies : RpcRspMsg → List RpcReqMsg → List RpcRspMsg
replies rsp [] = []
replies rsp (req ∷ reqs) = elim (answer req.func_code rsp) [
  | none ↦ []
  | some out ↦ out ∷ replies out reqs
]

module _ {W : Type 0} (net : Stream W RpcRspMsg RpcReqMsg) (fd : ℤ) (pending : W → List RpcReqMsg)
    (arrived : W → List RpcRspMsg) (d : Delivers net fd pending arrived) where
  round-ends :
      (s : Session W)
      → pending s.world ≡ []
      → let done = round net fd s in (done.0 ≡ exited) × (arrived done.1.world ≡ arrived s.world)
  unfolding round hang_up
  round-ends s e =
      let got = d.end_ s.req s.world e in
      ground (arith, got, d.closes (net.recv fd s.req s.world).1)

  round-refuses :
      (s : Session W) (req : RpcReqMsg) (reqs : List RpcReqMsg)
      → pending s.world ≡ req ∷ reqs
      → answer req.func_code s.rsp ≡ none
      → let done = round net fd s in (done.0 ≡ exited) × (arrived done.1.world ≡ arrived s.world)
  unfolding round respond hang_up
  round-refuses s req reqs e refused =
      let got = d.next s.req req reqs s.world e in
      ground (arith, got, refused, d.closes (net.recv fd s.req s.world).1)

  round-answers :
      (s : Session W) (req : RpcReqMsg) (reqs : List RpcReqMsg) (out : RpcRspMsg)
      → pending s.world ≡ req ∷ reqs
      → answer req.func_code s.rsp ≡ some out
      → let done = round net fd s in
        (done.0 ≡ running)
        × (done.1.rsp ≡ out)
        × (pending done.1.world ≡ reqs)
        × (arrived done.1.world ≡ arrived s.world ++ out ∷ [])
  unfolding round respond reply
  round-answers s req reqs out e answered =
      let got = d.next s.req req reqs s.world e in
      ground (arith, got, answered, d.sends out (net.recv fd s.req s.world).1)

  rounds-exited :
      (n : ℕ) (s : Session W)
      → (round net fd s).0 ≡ exited
      → rounds net fd (suc n) s ≡ (exited, (round net fd s).1)
  unfolding rounds
  rounds-exited n s e = rw (e, rounds) refl

  rounds-running :
      (n : ℕ) (s : Session W)
      → (round net fd s).0 ≡ running
      → rounds net fd (suc n) s ≡ rounds net fd n (round net fd s).1
  unfolding rounds
  rounds-running n s e = rw (e, rounds) refl

  rounds-replies :
      (reqs : List RpcReqMsg) (n : ℕ) (s : Session W)
      → pending s.world ≡ reqs
      → length reqs < n
      → let done = rounds net fd n s in
        (done.0 ≡ exited) × (arrived done.1.world ≡ arrived s.world ++ replies s.rsp reqs)
  unfolding replies
  rounds-replies reqs zero s e enough = absurd (omega arith)
  rounds-replies [] (suc n) s e enough =
      let (ends, seen) = round-ends s e in
      rw (rounds-exited n s ends) (refl, seen ∙ sym (append-nil (arrived s.world)))
  rounds-replies (req ∷ reqs) (suc n) s e enough =
      elim (Option-cases (answer req.func_code s.rsp)) [
        | inl none_ ↦
            let (ends, seen) = round-refuses s req reqs e none_ in
            rw (rounds-exited n s ends, none_, replies)
              (refl, seen ∙ sym (append-nil (arrived s.world)))
        | inr (out, some_) ↦
            let (goes, buffer, rest, seen) = round-answers s req reqs out e some_ in
            let later = rounds-replies reqs n (round net fd s).1 rest (omega arith) in
            rw (rounds-running n s goes, some_, replies)
              (
                later.0,
                later.1
                    ∙ ap₂ (λ xs out. xs ++ replies out reqs) seen buffer
                    ∙ append_assoc (arrived s.world) (out ∷ []) (replies out reqs),
              )
      ]

  -- A client sends requests and then no more, and the socket delivers (`Delivers`). If the thread of
  -- the stand-in learns its peer's name, it ends within one round more than there are requests, and
  -- the client has received the response to each request before the first that is refused.
  pub server_accept_request-replies :
      (socks : Sockets W) (n : ℕ) (w : W)
      → is_neg (socks.getpeername fd w).0.0 ≡ false
      → length (pending (socks.getpeername fd w).1) < n
      → let named = (socks.getpeername fd w).1 in
        let done = server_accept_request net fd socks n w in
        (done.0 ≡ exited) × (arrived done.1.world ≡ arrived named ++ replies zeroed (pending named))
  unfolding server_accept_request
  server_accept_request-replies socks n w named enough =
      rw named (rounds-replies (pending (socks.getpeername fd w).1) n _ refl enough)
