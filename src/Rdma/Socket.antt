-- ===== src/Rdma/Socket.antt =====
-- `RDMASocket`: its state, the requests that it posts, and the handlers of the events of its channel.
-- The RDMA library gives the handles of the links and carries the requests; what it is handed stands
-- in `posted`, the last one first. `expectTrue` and its kin only log, and the parameters of a
-- connection are the same for every link, so they are left out.
use undergraduate_project.Shared.{
  ℕ, zero, suc, ◌+◌, leb, ◌==◌, if◌then◌else◌, Bool, true, false, ◌&&◌, not, ℤ, pos, List, [], ◌∷◌,
  Option, none, some, update, ◌-◌, length,
}
use undergraduate_project.Rdma.Peers.{Peer, Peers, Log, resize, write_log_size}

pub data Verb : Type 0 where
  send recv : Verb
  write read : (remote_addr : ℕ) (rkey : ℕ) → Verb

-- A request as `rdma_post_send` and its kin take it.
pub record Posted : Type 0 where
  pub cm_id : Option ℕ
  pub context : ℕ
  pub len : ℕ
  pub verb : Verb

pub record Socket : Type 0 where
  pub peers : Peers
  pub cm2id : ℕ → Option ℕ
  pub should_run : Bool
  pub initialized : Bool
  pub incoming_conns : ℕ
  pub log : Log
  pub posted : List Posted

-- The null pointer that every call passes as its context.
abbrev pub no_context : ℕ
no_context = 0

unfoldable pub post : Socket → ℕ → ℕ → Verb → Socket
post s peer_id len verb = record s {
  posted =
      if s.should_run
      then (record {
        cm_id = (s.peers peer_id).cm_id;
        context = no_context;
        len = len;
        verb = verb;
      })
        ∷ s.posted
      else s.posted;
}

unfoldable pub post_send : Socket → ℕ → ℕ → Socket
unfolding post
post_send s peer_id len = post s peer_id len send

unfoldable pub post_receive : Socket → ℕ → ℕ → Socket
unfolding post
post_receive s peer_id len = post s peer_id len recv

-- `base` is the address of the peer's memory.
unfoldable pub post_write : Socket → ℕ → ℕ → ℕ → ℕ → Socket
unfolding post
post_write s base peer_id shift len =
    post s peer_id len (write (base + shift) (s.peers peer_id).peer_mr)

unfoldable pub post_read : Socket → ℕ → ℕ → ℕ → ℕ → Socket
unfolding post
post_read s base peer_id shift len =
    post s peer_id len (read (base + shift) (s.peers peer_id).peer_mr)

abbrev pub rdma_buf_size : ℕ
rdma_buf_size = 4096

-- `cm2id[...]`, which enters the peer 0 under a handle that is not there.
unfoldable pub peer_of : Socket → ℕ → ℕ × Socket
peer_of s cm = elim (s.cm2id cm) [
  | some p ↦ (p, s)
  | none ↦ (0, record s { cm2id = update s.cm2id cm (some 0) })
]

-- What the constructor sets up; `stat` is what the markings hold, which it does not set.
unfoldable pub init : (ℕ → ℤ) → Log → Socket
init stat log = record {
  peers = λ p. record {
    cm_id = none;
    has_regions = false;
    peer_mr = 0;
    connected = false;
    forced_conn_stat = stat p;
  };
  cm2id = λ _. none;
  should_run = true;
  initialized = false;
  incoming_conns = 0;
  log = log;
  posted = [];
}

unfoldable pub create_id : Socket → ℕ → ℕ → Socket
create_id s i cm = record s {
  peers = update s.peers i (record (s.peers i) { cm_id = some cm });
  cm2id = update s.cm2id cm (some i);
}

-- The loop over the nodes of the configuration; `new_id i` is the handle made in its turn `i`.
unfoldable pub connect_loop : Bool → ℕ → (ℕ → ℕ) → ℕ → List ℕ → Socket → Socket
unfolding create_id
connect_loop recover my_id new_id i [] s = s
connect_loop recover my_id new_id i (id ∷ ids) s =
    connect_loop recover my_id new_id (suc i) ids
      (if not recover && leb my_id id then s else create_id s i (new_id i))

unfoldable pub build_connection : Socket → ℕ → Socket
unfolding peer_of post_receive
build_connection s cm =
    let (p, t) = peer_of s cm in
    let built : Socket = record t {
      peers = update t.peers p (record (t.peers p) {
        cm_id = some cm;
        connected = false;
        forced_conn_stat = pos 0;
        has_regions = true;
      });
    } in
    post_receive built p rdma_buf_size

unfoldable pub destroy_connection : Socket → ℕ → Socket
unfolding peer_of
destroy_connection s cm =
    let (p, t) = peer_of s cm in
    record t {
      peers =
          update t.peers p
            (record (t.peers p) { connected = false; cm_id = none; has_regions = false });
      cm2id = update t.cm2id cm none;
    }

unfoldable pub on_addr_resolved : Socket → ℕ → Socket
unfolding build_connection
on_addr_resolved s cm = build_connection s cm

unfoldable pub on_connection_request : Socket → ℕ → ℕ → Socket
unfolding build_connection
on_connection_request s cm node_id =
    build_connection (record s { cm2id = update s.cm2id cm (some node_id) }) cm

-- What the poll in the handler gives: the status of the completion, then the message.
pub data Received : Type 0 where
  remote_mr : ℕ → Received
  bad_status other_message : Received

-- `none` is `exit(-1)`; `size` is that of a message.
unfoldable pub on_connection_established : ℕ → Socket → ℕ → Received → Option Socket
unfolding peer_of post_send
on_connection_established size s cm received =
    let (p, t) = peer_of s cm in
    let u = post_send t p size in
    if u.initialized then some u else elim received [
      | remote_mr mr ↦ some (record u {
        peers = update u.peers p (record (u.peers p) { peer_mr = mr; connected = true });
        incoming_conns = u.incoming_conns + 1;
      })
      | _ ↦ none
    ]

unfoldable pub on_disconnected : Socket → ℕ → Socket
unfolding peer_of destroy_connection undergraduate_project.Rdma.Peers.on_disconnected
on_disconnected s cm =
    let (p, t) = peer_of s cm in
    destroy_connection (record t { log = undergraduate_project.Rdma.Peers.on_disconnected t.log })
      cm

abbrev pub page_bytes : ℕ
page_bytes = 4096

-- A first write to every other node of the configuration, at the start of its memory; `base` gives the
-- address of a peer's memory.
unfoldable pub test_writes : (ℕ → ℕ) → ℕ → List ℕ → Socket → Socket
unfolding post_write
test_writes base my_id [] s = s
test_writes base my_id (id ∷ ids) s =
    test_writes base my_id ids (if id == my_id then s else post_write s (base id) id 0 page_bytes)

-- The constructor from its wait on, `none` while it waits. Posting changes only what is posted.
unfoldable pub finish_init : (ℕ → ℕ) → ℕ → List ℕ → Socket → Option Socket
unfolding test_writes
finish_init base my_id ids s =
    if leb (length ids - 1) s.incoming_conns
    then some (record s {
      posted = (test_writes base my_id ids s).posted;
      log = record (s.log) { write_log = resize write_log_size s.log.write_log };
      initialized = true;
    })
    else none

unfoldable pub stop_listener : Bool → Socket → Socket
stop_listener is_main s = if is_main then record s { should_run = false } else s

-- Handles of links that are left go with the socket.
unfoldable pub destroy_links : ℕ → Socket → Socket
unfolding destroy_connection
destroy_links zero s = s
destroy_links (suc n) s =
    let t = destroy_links n s in
    elim ((t.peers n).cm_id) [ none ↦ t | some cm ↦ destroy_connection t cm ]
