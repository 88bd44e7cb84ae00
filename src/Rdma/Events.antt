-- ===== src/Rdma/Events.antt =====
-- The events of the channel of `RDMASocket` and the steps of its constructor, and what the handlers do at
-- a handle that belongs to a peer.
use undergraduate_project.Shared.{
  ℕ, ◌+◌, ◌-◌, ◌≤◌, ◌<◌, ◌≡◌, refl, sym, ◌≢◌, ◌⊎◌, inl, inr, arith, leb, true, false, pos, List,
  length, Option, none, some, update, Bool-cases,
}
use undergraduate_project.Rdma.Peers.{Peer, Peers, Log, is_peer_alive, resize, write_log_size}
use undergraduate_project.Rdma.Socket.{
  Socket, Received, remote_mr, bad_status, other_message, create_id, peer_of, post, post_send,
  post_receive, build_connection, destroy_connection, on_addr_resolved, on_connection_request,
  on_connection_established, on_disconnected, finish_init, test_writes,
}

-- A cluster as a node sees it: its nodes have the ids below `length ids`.
pub record Site : Type 0 where
  pub my_id : ℕ
  pub ids : List ℕ
  pub base : ℕ → ℕ
  pub message_size : ℕ

-- An event of the channel, or a step of the constructor. A handle is new when it is created or comes with a
-- request, and the library tells of the others only what was made before.
pub data Step (c : Site) (s : Socket) : Socket → Type 0 where
  created : (cm p : ℕ) → s.cm2id cm ≡ none → p < length c.ids → Step c s (create_id s p cm)
  addr_resolved : (cm p : ℕ) → s.cm2id cm ≡ some p → Step c s (on_addr_resolved s cm)
  requested :
      (cm p : ℕ) → s.cm2id cm ≡ none → p < length c.ids → Step c s (on_connection_request s cm p)
  established :
      (cm p : ℕ) (received : Received) {t : Socket}
      → s.cm2id cm ≡ some p
      → on_connection_established c.message_size s cm received ≡ some t
      → Step c s t
  disconnected : (cm p : ℕ) → s.cm2id cm ≡ some p → Step c s (on_disconnected s cm)
  ready : {t : Socket} → finish_init c.base c.my_id c.ids s ≡ some t → Step c s t

pub data Reach (c : Site) (s : Socket) : Socket → Type 0 where
  here : Reach c s s
  later : {t u : Socket} → Reach c s t → Step c t u → Reach c s u

-- The peer has no link yet and is not the node itself; and no link of the peer is up yet.
abbrev pub IsFree : Site → Socket → ℕ → Type 0
IsFree c s p = ((s.peers p).cm_id ≡ none) × (p ≢ c.my_id)

abbrev pub IsDown : Socket → ℕ → Type 0
IsDown s p = (s.peers p).connected ≡ false

-- A link is made only to another node that has none, and a peer that is connected neither resolves nor connects
-- once more. The code does not see to it: with `recover` it links to itself, and a peer can ask again before the
-- loss of its link is noticed.
abbrev pub IsOrderly : {c : Site} {s t : Socket} → Step c s t → Type 0
IsOrderly {c} {s} (created cm p fresh below) = IsFree c s p
IsOrderly {c} {s} (addr_resolved cm p e) = IsDown s p
IsOrderly {c} {s} (requested cm p fresh below) = IsFree c s p
IsOrderly {c} {s} (established cm p received e h) = IsDown s p
IsOrderly {c} {s} (disconnected cm p e) = Unit
IsOrderly {c} {s} (ready h) = Unit

abbrev pub AllOrderly : {c : Site} {s t : Socket} → Reach c s t → Type 0
AllOrderly here = Unit
AllOrderly (later r st) = AllOrderly r × IsOrderly st

-- What a link is built to be, and what is left of one that is lost.
abbrev pub fresh_link : ℕ → Peer → Peer
fresh_link cm p = record p {
  cm_id = some cm;
  connected = false;
  forced_conn_stat = pos 0;
  has_regions = true;
}

abbrev pub lost_link : Peer → Peer
lost_link p = record p { connected = false; cm_id = none; has_regions = false }

peer_of-known : (s : Socket) (cm p : ℕ) → s.cm2id cm ≡ some p → peer_of s cm ≡ (p, s)
unfolding peer_of
peer_of-known s cm p e = rw (peer_of, e) refl

-- The handlers at a handle that belongs to the peer `p`.
pub build_connection-known :
    (s : Socket) (cm p : ℕ)
    → s.cm2id cm ≡ some p
    → build_connection s cm ≡ record s {
      peers = update s.peers p (fresh_link cm (s.peers p));
      posted = (build_connection s cm).posted;
    }
unfolding build_connection post_receive post
build_connection-known s cm p e = rw (build_connection, peer_of-known s cm p e) refl

pub on_disconnected-known :
    (s : Socket) (cm p : ℕ)
    → s.cm2id cm ≡ some p
    → on_disconnected s cm ≡ record s {
      peers = update s.peers p (lost_link (s.peers p));
      cm2id = update s.cm2id cm none;
      log = undergraduate_project.Rdma.Peers.on_disconnected s.log;
    }
unfolding on_disconnected destroy_connection
on_disconnected-known s cm p e =
    rw (on_disconnected, peer_of-known s cm p e)
      (rw
        (
          destroy_connection,
          peer_of-known (record s { log = undergraduate_project.Rdma.Peers.on_disconnected s.log })
              cm p e,
        )
        refl)

pub on_connection_established-known :
    (size : ℕ) (s : Socket) (cm p : ℕ) (received : Received) {t : Socket}
    → s.cm2id cm ≡ some p
    → on_connection_established size s cm received ≡ some t
    → let u = post_send s p size in
      ((s.initialized ≡ true) × (t ≡ u))
      ⊎ ((s.initialized ≡ false)
          × (mr : ℕ) × (t ≡ record u {
            peers = update s.peers p (record (s.peers p) { peer_mr = mr; connected = true });
            incoming_conns = s.incoming_conns + 1;
          }))
unfolding on_connection_established post_send post
on_connection_established-known size s cm p (remote_mr mr) {t} e h =
    let seen : on_connection_established size s cm (remote_mr mr) ≡ some t = h in
    elim (Bool-cases s.initialized) [
      | inl running ↦
          let same = rw (on_connection_established, peer_of-known s cm p e, running) at seen in
          inl (running, ground (arith, same))
      | inr first ↦
          let same = rw (on_connection_established, peer_of-known s cm p e, first) at seen in
          inr (first, mr, ground (arith, same))
    ]
on_connection_established-known size s cm p bad_status e h = elim (Bool-cases s.initialized) [
  | inl running ↦
      let same = rw (on_connection_established, peer_of-known s cm p e, running) at h in
      inl (running, ground (arith, same))
  | inr first ↦
      absurd (ground (arith, rw (on_connection_established, peer_of-known s cm p e, first) at h))
]
on_connection_established-known size s cm p other_message e h = elim (Bool-cases s.initialized) [
  | inl running ↦
      let same = rw (on_connection_established, peer_of-known s cm p e, running) at h in
      inl (running, ground (arith, same))
  | inr first ↦
      absurd (ground (arith, rw (on_connection_established, peer_of-known s cm p e, first) at h))
]

some_injective : {s t : Socket} → ◌≡◌ {A = Option Socket} (some s) (some t) → s ≡ t
some_injective h = ground (arith, h)

pub finish_init-known :
    (c : Site) (s : Socket) {t : Socket}
    → finish_init c.base c.my_id c.ids s ≡ some t
    → (length c.ids - 1 ≤ s.incoming_conns)
      × (t ≡ record s {
        posted = (test_writes c.base c.my_id c.ids s).posted;
        log = record (s.log) { write_log = resize write_log_size s.log.write_log };
        initialized = true;
      })
unfolding finish_init
finish_init-known c s h = elim (Bool-cases (leb (length c.ids - 1) s.incoming_conns)) [
  | inl full ↦ (ground arith, sym (some_injective (rw (finish_init, full) at h)))
  | inr fewer ↦ absurd (ground (arith, rw (finish_init, fewer) at h))
]
