-- ===== src/Examples/Queues.antt =====
-- Tests of src/network/rpc.cpp.
use undergraduate_project.Shared.{
  ℕ, ◌+◌, ◌*◌, ◌≤◌, ◌<◌, ◌≡◌, ◌⊎◌, refl, [], ◌∷◌, true, false, none, some, pos, arith,
}
use undergraduate_project.Rdma.Peers.{Log}
use undergraduate_project.Rdma.Socket.{Socket, send, recv, init, create_id, on_addr_resolved}
use undergraduate_project.Rdma.Events as Events
use undergraduate_project.Rdma.Completions.{Wc, completion}
use undergraduate_project.Rdma.Contexts.{Life, at_start, event, newest}
use undergraduate_project.Rpc.Message.{RpcMessage, rpc_call, rpc_response, Message, test}
use undergraduate_project.Rpc.Interface.{
  Interface, next, deliver, rdma_turn, rpc_turn, process, received,
}
use undergraduate_project.Rpc.Traffic.{arrival, here, later}
use undergraduate_project.Rpc.Delivery.{Inv, each_kind_in_order}
use undergraduate_project.Rpc.Answers.{answers_go_to_peer_0}
use undergraduate_project.Rpc.Sync.{
  Net, start, send_request, respond, Step, Run, IsDone, sent, listen,
}
use undergraduate_project.Rpc.Sync as Sync
use undergraduate_project.Rpc.Progress.{sync_comes_to_its_end, taken_request_strands}

abbrev no_log : Log
no_log = record { degraded = 0; write_log = [] }

abbrev site : Events.Site
site = record { my_id = 1; ids = 0 ∷ 1 ∷ []; base = λ n. 0; message_size = 600 }

abbrev new_socket : Socket
new_socket = init (λ n. pos 0) no_log

abbrev socket : Socket
socket = on_addr_resolved (create_id new_socket 0 7) 7

socket_run : Life site new_socket socket
unfolding init create_id
socket_run =
    event (event at_start (Events.created 7 0 refl (omega arith))) (Events.addr_resolved 7 0 refl)

abbrev ping : RpcMessage
ping = record { type = test; result = pos 0; mode = 3; raw = [] }

abbrev call : Message
call = record { type = rpc_call; rpc = ping }

abbrev first : Wc
first = record { wr_id = 0; is_write = false; imm_data = 0 }

abbrev idle : Interface
idle = record {
  socket = socket;
  send_region = λ n. call;
  recv_region = λ n. call;
  should_run = true;
  peer_alive_status = λ n. pos 0;
  processor = some (λ request response. record response { mode = request.mode });
  sq = [];
  rq = [];
  oq = [];
  response = record ping { result = pos 5 };
  last = first;
}

abbrev delivered : Interface
delivered = elim (deliver 600 idle first) [ none ↦ idle | some t ↦ t ]

each_kind_in_order_example : Inv (record {
  iface = delivered;
  taken_up = received idle first ∷ [];
  served = [];
  answered = [];
  special = [];
})
unfolding deliver
each_kind_in_order_example =
    each_kind_in_order 600 idle _ (refl, refl, refl) (later here (arrival first refl))

answers_go_to_peer_0_example :
    (t : Interface) × (u : Interface) × (rdma_turn 600 idle (completion first) ≡ next t)
    × (rpc_turn 600 t ≡ next u)
    × (u.rq ≡ [])
    × (u.send_region 0 ≡ record { type = rpc_response; rpc = process idle ping })
    × (u.socket.posted
        ≡ (record { cm_id = some 7; context = 0; len = 600; verb = send })
          ∷ (record { cm_id = some 7; context = 0; len = 600; verb = recv })
          ∷ socket.posted)
unfolding on_addr_resolved create_id init
answers_go_to_peer_0_example =
    answers_go_to_peer_0 site (λ n. pos 0) no_log 600 idle
      (record { cm_id = some 7; context = 0; len = 4096; verb = recv }) first socket_run
      (newest refl) refl refl refl refl refl

-- The node 1 asks the node 0, which responds.
abbrev asked : Net
asked = send_request start 1 0

abbrev met : Net
met = respond asked 0 1

met-Run : Run 2 start 2 met
unfolding start send_request
met-Run =
    Sync.later (Sync.later Sync.here (sent 1 0 (omega arith) refl refl (omega arith)))
      (Sync.responded 0 1 (omega arith) refl (omega arith) (omega arith) refl)

sync_comes_to_its_end_example :
    (2 ≤ 2 * (2 * 2 + 1))
    × ((0 < met.taken) ⊎ ((i : ℕ) → i < 2 → IsDone 2 met i) ⊎ ((t : Net) × Step 2 met t))
sync_comes_to_its_end_example = sync_comes_to_its_end 2 2 met met-Run

-- In a cluster of three, the node 2 asks the node 0 after the listener took the first request.
abbrev stranded : Net
stranded = send_request (listen (send_request start 1 0) 0 1) 2 0

taken_request_strands_example : ((stranded.node 0).partner < 3) × ((stranded.node 1).partner < 3)
unfolding start send_request listen
taken_request_strands_example =
    taken_request_strands 3 1 stranded (omega arith)
      (Sync.later Sync.here (sent 2 0 (omega arith) refl refl (omega arith)))
