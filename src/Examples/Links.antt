-- ===== src/Examples/Links.antt =====
-- Tests of the links of src/network/rdma.cpp.
use undergraduate_project.Shared.{◌≡◌, refl, [], ◌∷◌, true, false, none, some, pos, arith, length}
use undergraduate_project.Rdma.Peers.{Log, is_peer_alive}
use undergraduate_project.Rdma.Socket.{
  Socket, remote_mr, init, create_id, on_addr_resolved, on_connection_request,
  on_connection_established, on_disconnected, finish_init,
}
use undergraduate_project.Rdma.Events.{
  Site, created, addr_resolved, requested, established, Reach, here, later, AllOrderly,
}
use undergraduate_project.Rdma.Registered.{IsRegistered, Reach-IsRegistered}
use undergraduate_project.Rdma.Loss.{
  ready_connects_all, lost_peer_stays_dead, late_disconnect_takes_new_link,
}
use undergraduate_project.Rdma.Completions.{
  Wc, batch, returned, poll_send_completions, poll_send_completions_total,
}

-- The node 1 of a cluster of two, which connects to the node 0.
abbrev two_nodes : Site
two_nodes = record { my_id = 1; ids = 0 ∷ 1 ∷ []; base = λ n. 4096; message_size = 600 }

abbrev no_log : Log
no_log = record { degraded = 0; write_log = [] }

abbrev new_socket : Socket
new_socket = init (λ n. pos 0) no_log

abbrev resolved : Socket
resolved = on_addr_resolved (create_id new_socket 0 7) 7

abbrev connected_socket : Socket
connected_socket = elim (on_connection_established 600 resolved 7 (remote_mr 5)) [
  | none ↦ resolved
  | some t ↦ t
]

abbrev running_socket : Socket
running_socket = elim (finish_init (λ n. 4096) 1 (0 ∷ 1 ∷ []) connected_socket) [
  | none ↦ resolved
  | some t ↦ t
]

connected_run : Reach two_nodes new_socket connected_socket
unfolding init create_id on_addr_resolved on_connection_established
connected_run =
    later (later (later here (created 7 0 refl (omega arith))) (addr_resolved 7 0 refl))
      (established 7 0 (remote_mr 5) refl refl)

connected_orderly : AllOrderly connected_run
unfolding init create_id on_addr_resolved connected_run
connected_orderly = (((tt, (refl, (omega arith))), refl), refl)

-- The node 0 asks for a new link under the handle 9 while it has the handle 7.
Reach-IsRegistered_example : IsRegistered two_nodes (on_connection_request connected_socket 9 0)
unfolding init create_id on_addr_resolved on_connection_established
Reach-IsRegistered_example =
    Reach-IsRegistered two_nodes (λ n. pos 0) no_log
      (later connected_run (requested 9 0 refl (omega arith)))

ready_connects_all_example : (running_socket.peers 0).connected ≡ true
unfolding finish_init on_connection_established on_addr_resolved create_id init
ready_connects_all_example =
    ready_connects_all two_nodes (λ n. pos 0) no_log connected_run connected_orderly refl refl
      (omega arith) 0 (omega arith) (omega arith)

-- The node 0 is lost, and connects again under the handle 9.
abbrev back_again : Socket
back_again = on_connection_request (on_disconnected running_socket 7) 9 0

lost_peer_stays_dead_example : is_peer_alive 1 back_again.peers 0 ≡ false
unfolding on_disconnected finish_init on_connection_established on_addr_resolved create_id init
lost_peer_stays_dead_example =
    lost_peer_stays_dead two_nodes 0 {s = on_disconnected running_socket 7} refl refl refl
      (omega arith) (later here (requested 9 0 refl (omega arith)))

late_disconnect_takes_new_link_example :
    (((on_connection_request running_socket 9 0).peers 0).cm_id ≡ some 9)
    × (((on_disconnected (on_connection_request running_socket 9 0) 7).peers 0).cm_id ≡ none)
    × (((on_disconnected (on_connection_request running_socket 9 0) 7).peers 0).has_regions ≡ false)
    × ((on_disconnected (on_connection_request running_socket 9 0) 7).cm2id 9 ≡ some 0)
unfolding finish_init on_connection_established on_addr_resolved create_id init
late_disconnect_takes_new_link_example =
    late_disconnect_takes_new_link running_socket 7 9 0 refl refl

abbrev first_write : Wc
first_write = record { wr_id = 0; is_write = true; imm_data = 12 }

abbrev message : Wc
message = record { wr_id = 0; is_write = false; imm_data = 0 }

poll_send_completions_total_example :
    (poll_send_completions 2
        (batch true (message ∷ []) ∷ batch true [] ∷ batch true (message ∷ []) ∷ [])
      ≡ (message ∷ message ∷ [], returned))
    × (length (message ∷ message ∷ []) ≡ 2)
poll_send_completions_total_example =
    poll_send_completions_total 2
      (batch true (message ∷ []) ∷ batch true [] ∷ batch true (message ∷ []) ∷ [])
      (refl, omega arith, (refl, omega arith, (refl, omega arith, refl)))
