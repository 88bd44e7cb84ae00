-- ===== src/Rpc/Answers.antt =====
-- What a call meets: a turn of `rdmaListen`, then one of `rpcListen`.
use undergraduate_project.Shared.{ℕ, ◌≡◌, refl, ap, ◌∙◌, true, ℤ, [], ◌∷◌, some}
use undergraduate_project.Rdma.Peers.{Log}
use undergraduate_project.Rdma.WorkId.{extract_x}
use undergraduate_project.Rdma.Socket.{Posted, send, recv, post, post_send, post_receive, init}
use undergraduate_project.Rdma.Events.{Site}
use undergraduate_project.Rdma.Completions.{Wc, completion}
use undergraduate_project.Rdma.Contexts.{Life, IsPosted, completions_name_peer_0}
use undergraduate_project.Rpc.Message.{rpc_response, ReqBuf, is_call}
use undergraduate_project.Rpc.Interface.{
  Interface, push, distribute, received, deliver, next, rdma_turn, send_message, process, answer,
  rpc_turn,
}

-- The interface after a call came.
abbrev called : ℕ → Interface → Wc → Interface
called size s wc = record s {
  rq = received s wc ∷ [];
  socket = post_receive s.socket (extract_x wc.wr_id) size;
  last = wc;
}

call-distribute :
    (s : Interface) (b : ReqBuf)
    → s.rq ≡ []
    → is_call b.msg.type ≡ true
    → distribute s b ≡ some (record s { rq = b ∷ [] })
unfolding distribute push
call-distribute s b empty call =
    let pushed : push s.rq b ≡ some (b ∷ []) = rw (push, empty) refl in
    rw (distribute, call, pushed) refl

call-deliver :
    (size : ℕ) (s : Interface) (wc : Wc)
    → s.rq ≡ []
    → is_call (received s wc).msg.type ≡ true
    → rdma_turn size s (completion wc) ≡ next (called size s wc)
unfolding rdma_turn deliver
call-deliver size s wc empty call =
    let there : deliver size s wc ≡ some (called size s wc) =
      rw (deliver, call-distribute s (received s wc) empty call) refl in
    rw there refl

call-answer :
    (size : ℕ) (s : Interface) (b : ReqBuf)
    → s.should_run ≡ true
    → s.rq ≡ b ∷ []
    → rpc_turn size s ≡ next (answer size (record s { rq = [] }) b)
unfolding rpc_turn
call-answer size s b on one = simp (on, one)

-- On a socket that went through any events of its channel and any calls of its users, and a running interface
-- with no other call waiting: a completion whose id is the context of a request that the socket posted, while
-- the buffer of the peer 0 holds a call, makes the listener take the call from that buffer, wherever the
-- message came from; one turn of the other listener answers it with what the processor makes of it, and
-- sends the answer to the peer 0.
pub answers_go_to_peer_0 :
    (c : Site) (stat : ℕ → ℤ) (log : Log) (size : ℕ) (s : Interface) (p : Posted) (wc : Wc)
    → Life c (init stat log) s.socket
    → IsPosted p s.socket.posted
    → wc.wr_id ≡ p.context
    → s.rq ≡ []
    → s.should_run ≡ true
    → s.socket.should_run ≡ true
    → is_call (s.recv_region 0).type ≡ true
    → let link = (s.socket.peers 0).cm_id in
      (t : Interface) × (u : Interface) × (rdma_turn size s (completion wc) ≡ next t)
      × (rpc_turn size t ≡ next u)
      × (u.rq ≡ [])
      × (u.send_region 0 ≡ record { type = rpc_response; rpc = process s (s.recv_region 0).rpc })
      × (u.socket.posted
          ≡ (record { cm_id = link; context = 0; len = size; verb = send })
            ∷ (record { cm_id = link; context = 0; len = size; verb = recv })
            ∷ s.socket.posted)
unfolding answer send_message process post_send post_receive post
answers_go_to_peer_0 c stat log size s p wc r at carried empty on posting call =
    let first = (completions_name_peer_0 c stat log s.socket p wc r at carried).0 in
    let t = called size s wc in
    let call_there : is_call (received s wc).msg.type ≡ true =
      ap (λ n. is_call (s.recv_region n).type) first ∙ call in
    (
      t,
      answer size (record t { rq = [] }) (received s wc),
      call-deliver size s wc empty call_there,
      call-answer size t (received s wc) on refl,
      refl,
      rw first refl,
      rw (first, posting) refl,
    )
