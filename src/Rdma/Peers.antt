-- ===== src/Rdma/Peers.antt =====
-- `isPeerAlive` with the markings for tests, `onDisconnected` and `processRecvWriteWithImm`. The socket
-- counts lost peers without end; the model's count does not wrap around.
use undergraduate_project.Shared.{
  ℕ, zero, suc, ◌+◌, ◌≡◌, arith, ◌==◌, if◌then◌else◌, Bool, true, false, ◌||◌, ◌≢◌, ℤ, pos, negsuc,
  List, [], ◌∷◌, ◌++◌, take, length, replicate, ◌-◌, Option,
}

-- `cm_id` is the handle of the link, if there is one; `has_regions` says that the four buffers of the
-- link are allocated and registered, and `peer_mr` is the key of the peer's memory.
pub record Peer : Type 0 where
  pub cm_id : Option ℕ
  pub has_regions : Bool
  pub peer_mr : ℕ
  pub connected : Bool
  pub forced_conn_stat : ℤ

abbrev pub Peers : Type 0
Peers = ℕ → Peer

abbrev pub is_positive : ℤ → Bool
is_positive (pos zero) = false
is_positive (pos (suc n)) = true
is_positive (negsuc n) = false

abbrev pub is_forced : ℤ → Bool
is_forced (pos zero) = false
is_forced _ = true

unfoldable pub force : Peers → ℕ → ℤ → Peers
force peers peer_id stat n =
    if n == peer_id then record (peers n) { forced_conn_stat = stat } else peers n

unfoldable pub mark_as_alive : Peers → ℕ → Peers
unfolding force
mark_as_alive peers peer_id = force peers peer_id (pos 1)

unfoldable pub mark_as_dead : Peers → ℕ → Peers
unfolding force
mark_as_dead peers peer_id = force peers peer_id (negsuc 0)

unfoldable pub cancel_marking : Peers → ℕ → Peers
unfolding force
cancel_marking peers peer_id = force peers peer_id (pos 0)

unfoldable pub is_peer_alive : ℕ → Peers → ℕ → Bool
is_peer_alive my_id peers peer_id =
    let stat = (peers peer_id).forced_conn_stat in
    if peer_id == my_id
    then true
    else if is_forced stat
    then is_positive stat
    else (peers peer_id).connected

pub record Log : Type 0 where
  pub degraded : ℕ
  pub write_log : List ℕ

-- What reaches the log: the loss of a peer, the end of the constructor, or a write with the number of its block.
pub data LogEvent : Type 0 where
  disconnected resized : LogEvent
  written : ℕ → LogEvent

unfoldable pub on_disconnected : Log → Log
on_disconnected s = record {
  degraded = s.degraded + 1;
  write_log = if s.degraded == 0 then [] else s.write_log;
}

-- `capacity` is that of the vector, which neither `clear` nor an insertion below it changes.
unfoldable pub process_recv_write_with_imm : ℕ → Log → ℕ → Log
process_recv_write_with_imm capacity s blkno =
    if s.degraded == 0
    then s
    else if length s.write_log == capacity
    then s
    else record s { write_log = s.write_log ++ blkno ∷ [] }

abbrev pub write_log_size : ℕ
write_log_size = 50000

-- `std::vector::resize`, which fills up with zeros.
abbrev pub resize : ℕ → List ℕ → List ℕ
resize n xs = take n xs ++ replicate (n - length xs) 0

unfoldable pub log_run : ℕ → Log → List LogEvent → Log
unfolding on_disconnected process_recv_write_with_imm
log_run capacity s [] = s
log_run capacity s (disconnected ∷ events) = log_run capacity (on_disconnected s) events
log_run capacity s (resized ∷ events) =
    log_run capacity (record s { write_log = resize write_log_size s.write_log }) events
log_run capacity s (written b ∷ events) =
    log_run capacity (process_recv_write_with_imm capacity s b) events

-- A marked peer is alive or dead as it was marked, whether or not it is connected; without a marking
-- it is alive when it is connected; and the node itself is always alive.
pub markings_decide :
    (my_id : ℕ) (peers : Peers) (peer_id : ℕ)
    → (is_peer_alive my_id (mark_as_alive peers peer_id) peer_id ≡ true)
      × (is_peer_alive my_id (mark_as_dead peers peer_id) peer_id ≡ (peer_id == my_id))
      × (is_peer_alive my_id (cancel_marking peers peer_id) peer_id
          ≡ (peer_id == my_id || (peers peer_id).connected))
      × ((other : ℕ)
          → other ≢ peer_id
          → is_peer_alive my_id (mark_as_dead peers peer_id) other
            ≡ is_peer_alive my_id peers other)
unfolding is_peer_alive mark_as_alive mark_as_dead cancel_marking force
markings_decide my_id peers peer_id =
    (ground arith, ground arith, ground arith, λ other ne. ground arith)
