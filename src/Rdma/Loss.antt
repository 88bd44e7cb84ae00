-- ===== src/Rdma/Loss.antt =====
-- The end of the constructor of `RDMASocket`, and the loss of links after it.
use undergraduate_project.Shared.{
  ℕ, ◌<◌, ◌≡◌, refl, sym, ap, ◌∙◌, ◌≢◌, inl, inr, arith, ◌==◌, true, false, ℤ, pos, length, none,
  some, update, subst, Bool-cases, Option-cases, count_below_two,
}
use undergraduate_project.Rdma.Peers.{Log, is_peer_alive}
use undergraduate_project.Rdma.Socket.{
  Socket, init, create_id, post, post_send, build_connection, on_addr_resolved,
  on_connection_request, on_disconnected, finish_init,
}
use undergraduate_project.Rdma.Events.{
  Site, Step, created, addr_resolved, requested, established, disconnected, ready, Reach, here,
  later, AllOrderly, build_connection-known, on_disconnected-known, on_connection_established-known,
  finish_init-known,
}
use undergraduate_project.Rdma.Links.{is_connected, Reach-Inv}

-- When the constructor ends, no connection was lost before, and links were made only to other nodes that had
-- none and did not connect once more: every other node of the configuration is connected.
pub ready_connects_all :
    (c : Site) (stat : ℕ → ℤ) (log : Log) {s t : Socket} (r : Reach c (init stat log) s)
    → AllOrderly r
    → finish_init c.base c.my_id c.ids s ≡ some t
    → s.log.degraded ≡ 0
    → c.my_id < length c.ids
    → (p : ℕ) → p < length c.ids
    → p ≢ c.my_id
    → (t.peers p).connected ≡ true
ready_connects_all c stat log {s} {t} r o h whole inside p below other =
    let inv = Reach-Inv c stat log r o in
    let enough = finish_init-known c s h in
    let myself : (s.peers c.my_id).connected ≡ false =
      elim (Bool-cases (s.peers c.my_id).connected) [
        | inl on ↦ elim (Option-cases (s.peers c.my_id).cm_id) [
          | inl nothing ↦ absurd (inv.linked c.my_id on nothing)
          | inr (cm, e) ↦ absurd ((inv.known cm c.my_id (inv.mapped cm c.my_id e)).1 refl)
        ]
        | inr off ↦ off
      ] in
    rw (enough.1) (elim (Bool-cases (s.peers p).connected) [
      | inl on ↦ on
      | inr off ↦ absurd (
          omega (
            arith,
            enough.0,
            inv.counted,
            whole,
            count_below_two is_connected (length c.ids) s.peers p c.my_id below inside other off
                myself,
          ))
    ])

-- A peer that a running node sees as lost.
record IsLost (p : ℕ) (s : Socket) : Type 0 where
  running : s.initialized ≡ true
  off : (s.peers p).connected ≡ false
  unmarked : (s.peers p).forced_conn_stat ≡ pos 0

Step-IsLost : {c : Site} {s t : Socket} (p : ℕ) → Step c s t → IsLost p s → IsLost p t
unfolding create_id on_addr_resolved on_connection_request post_send post
Step-IsLost p (created cm q a d) lost = ground (arith, lost)
Step-IsLost {s} p (addr_resolved cm q e) lost =
    subst (IsLost p) (sym (build_connection-known s cm q e)) (ground (arith, lost))
Step-IsLost {s} p (requested cm q a d) lost =
    let asked : Socket = record s { cm2id = update s.cm2id cm (some q) } in
    let there : asked.cm2id cm ≡ some q = ground arith in
    subst (IsLost p) (sym (build_connection-known asked cm q there)) (ground (arith, lost))
Step-IsLost {c} {s} p (established cm q r e h) lost =
    elim (on_connection_established-known c.message_size s cm q r e h) [
      | inl (running, same) ↦ subst (IsLost p) (sym same) (ground (arith, lost))
      | inr (first, mr, same) ↦ absurd (ground (arith, lost))
    ]
Step-IsLost {s} p (disconnected cm q e) lost =
    subst (IsLost p) (sym (on_disconnected-known s cm q e)) (ground (arith, lost))
Step-IsLost {c} {s} p (ready h) lost =
    subst (IsLost p) (sym (finish_init-known c s h).1) (ground (arith, lost))

Reach-IsLost : {c : Site} {s t : Socket} (p : ℕ) → Reach c s t → IsLost p s → IsLost p t
Reach-IsLost p here lost = lost
Reach-IsLost p (later r st) lost = Step-IsLost p st (Reach-IsLost p r lost)

-- On a node that is running, a peer without a connection and without a marking is never alive again,
-- whatever events follow, a new connection of that peer included.
pub lost_peer_stays_dead :
    (c : Site) (p : ℕ) {s t : Socket}
    → s.initialized ≡ true
    → (s.peers p).connected ≡ false
    → (s.peers p).forced_conn_stat ≡ pos 0
    → p ≢ c.my_id
    → Reach c s t
    → is_peer_alive c.my_id t.peers p ≡ false
unfolding is_peer_alive
lost_peer_stays_dead c p started off unmarked other r =
    let lost = Reach-IsLost p r (record { running = started; off = off; unmarked = unmarked }) in
    ground (arith, lost)

-- A peer connects again under a new handle before the loss of its old link is noticed: the event of the
-- loss takes the new link's handle and buffers from the peer, and the new handle still names it.
pub late_disconnect_takes_new_link :
    (s : Socket) (old new p : ℕ)
    → s.cm2id old ≡ some p
    → s.cm2id new ≡ none
    → let asked = on_connection_request s new p in
      let t = on_disconnected asked old in
      ((asked.peers p).cm_id ≡ some new)
      × ((t.peers p).cm_id ≡ none)
      × ((t.peers p).has_regions ≡ false)
      × (t.cm2id new ≡ some p)
unfolding on_connection_request
late_disconnect_takes_new_link s old new p there fresh =
    let named : Socket = record s { cm2id = update s.cm2id new (some p) } in
    let known : named.cm2id new ≡ some p = ground arith in
    let built = build_connection-known named new p known in
    let kept : (build_connection named new).cm2id old ≡ some p =
      ap (λ t. t.cm2id old) built ∙ ground arith in
    let apart : (new == old) ≡ false = ground (arith, there, fresh) in
    let gone = on_disconnected-known (build_connection named new) old p kept in
    (
      ap (λ t. (t.peers p).cm_id) built ∙ ground arith,
      ap (λ t. (t.peers p).cm_id) gone ∙ ground arith,
      ap (λ t. (t.peers p).has_regions) gone ∙ ground arith,
      ap (λ t. t.cm2id new) gone ∙ rw apart (ap (λ t. t.cm2id new) built ∙ ground arith),
    )
