-- ===== src/Rpc/Interface.antt =====
-- `RPCInterface`: its queues between threads, the turns of its two listeners, a call, and which peers are
-- alive. A queue of the library gives its elements in the order in which they were pushed, and refuses
-- a push when it is full. `expectTrue` only logs.
use undergraduate_project.Shared.{
  ℕ, ltb, if◌then◌else◌, Bool, false, ℤ, List, [], ◌∷◌, ◌++◌, length, Option, none, some, update,
}
use undergraduate_project.Rdma.Peers
use undergraduate_project.Rdma.Peers.{is_forced, is_positive}
use undergraduate_project.Rdma.WorkId.{extract_x}
use undergraduate_project.Rdma.Socket.{Socket, post_send, post_receive}
use undergraduate_project.Rdma.Completions.{Wc, Outcome, stopped, failed, polling, completion}
use undergraduate_project.Rpc.Message.{
  RpcMessage, rpc_response, Message, ReqBuf, is_call, is_response,
}

-- What a registered processor does: the request, and the response before and after it.
abbrev pub Processor : Type 0
Processor = RpcMessage → RpcMessage → RpcMessage

-- The regions hold the message that a peer's buffer has; `response` is that of `rpcListen`, which is one
-- for all calls, and `last` the completion that `rdmaListen` has from its last poll.
pub record Interface : Type 0 where
  pub socket : Socket
  pub send_region : ℕ → Message
  pub recv_region : ℕ → Message
  pub should_run : Bool
  pub peer_alive_status : ℕ → ℤ
  pub processor : Option Processor
  pub sq : List ReqBuf
  pub rq : List ReqBuf
  pub oq : List ReqBuf
  pub response : RpcMessage
  pub last : Wc

abbrev pub capacity : ℕ
capacity = 65536

-- `none` while the queue is full.
unfoldable pub push : List ReqBuf → ReqBuf → Option (List ReqBuf)
push q b = if ltb (length q) capacity then some (q ++ b ∷ []) else none

-- The queue of a message; `none` while the push is tried again.
unfoldable pub distribute : Interface → ReqBuf → Option Interface
unfolding push
distribute s b =
    if is_call b.msg.type
    then elim (push s.rq b) [ none ↦ none | some q ↦ some (record s { rq = q }) ]
    else if is_response b.msg.type
    then elim (push s.sq b) [ none ↦ none | some q ↦ some (record s { sq = q }) ]
    else elim (push s.oq b) [ none ↦ none | some q ↦ some (record s { oq = q }) ]

-- The buffer that a completion is taken to stand for.
abbrev pub received : Interface → Wc → ReqBuf
received s wc = record { wc = wc; msg = s.recv_region (extract_x wc.wr_id) }

unfoldable pub deliver : ℕ → Interface → Wc → Option Interface
unfolding distribute post_receive
deliver size s wc = elim (distribute s (received s wc)) [
  | none ↦ none
  | some t ↦ some (record t { socket = post_receive t.socket (extract_x wc.wr_id) size; last = wc })
]

-- How a turn of a listener ends.
pub data Turned : Type 0 where
  ended : Turned
  spinning : Turned
  next : Interface → Turned

abbrev turned : Option Interface → Turned
turned none = spinning
turned (some s) = next s

-- A turn of `rdmaListen`, with what the poll gives. A failed poll leaves the last completion in place.
unfoldable pub rdma_turn : ℕ → Interface → Outcome → Turned
unfolding deliver
rdma_turn size s stopped = ended
rdma_turn size s polling = spinning
rdma_turn size s failed = turned (deliver size s s.last)
rdma_turn size s (completion wc) = turned (deliver size s wc)

unfoldable pub send_message : ℕ → Interface → ℕ → Message → Interface
unfolding post_send
send_message size s peer_id m = record s {
  send_region = update s.send_region peer_id m;
  socket = post_send s.socket peer_id size;
}

unfoldable pub process : Interface → RpcMessage → RpcMessage
process s request = elim s.processor [ none ↦ s.response | some f ↦ f request s.response ]

-- What `rpcListen` does with a request that it has popped.
unfoldable pub answer : ℕ → Interface → ReqBuf → Interface
unfolding process send_message
answer size s b =
    let filled = process s b.msg.rpc in
    send_message size (record s { response = filled }) (extract_x b.wc.wr_id)
      (record { type = rpc_response; rpc = filled })

-- A turn of `rpcListen`.
unfoldable pub rpc_turn : ℕ → Interface → Turned
unfolding answer
rpc_turn size s =
    if s.should_run
    then elim s.rq [ [] ↦ spinning | b ∷ rest ↦ next (answer size (record s { rq = rest }) b) ]
    else ended

-- `rpcCall` up to its wait, and what the wait gives: the state after it and the buffer that is copied to
-- the caller, `none` while it waits.
unfoldable pub call_send : ℕ → Interface → ℕ → Message → Interface
unfolding send_message
call_send size s peer_id request = send_message size s peer_id request

unfoldable pub call_receive : Interface → Message → Option (Interface × ReqBuf)
call_receive s request =
    if is_call request.type
    then elim s.sq [ [] ↦ none | b ∷ rest ↦ some (record s { sq = rest }, b) ]
    else elim s.oq [ [] ↦ none | b ∷ rest ↦ some (record s { oq = rest }, b) ]

unfoldable pub register_rpc_processor : Interface → Processor → Interface
register_rpc_processor s f = record s { processor = some f }

unfoldable pub mark : Interface → ℕ → ℤ → Interface
mark s peer_id stat = record s { peer_alive_status = update s.peer_alive_status peer_id stat }

-- `__markAsAlive`, `__markAsDead` and `__cancelMarking` are `mark` with 1, -1 and 0.
unfoldable pub is_peer_alive : ℕ → Interface → ℕ → Bool
unfolding undergraduate_project.Rdma.Peers.is_peer_alive
is_peer_alive my_id s peer_id =
    let stat = s.peer_alive_status peer_id in
    if is_forced stat
    then is_positive stat
    else undergraduate_project.Rdma.Peers.is_peer_alive my_id s.socket.peers peer_id

-- The flag of the socket, then that of the listeners.
unfoldable pub stop_listener : Bool → Interface → Interface
unfolding undergraduate_project.Rdma.Socket.stop_listener
stop_listener is_main s =
    if is_main
    then record s {
      socket = undergraduate_project.Rdma.Socket.stop_listener is_main s.socket;
      should_run = false;
    }
    else s
