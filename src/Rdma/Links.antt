-- ===== src/Rdma/Links.antt =====
-- Which peer a link belongs to, over every order of the events that the channel of `RDMASocket` gives.
use undergraduate_project.Shared.{
  ℕ, ◌+◌, ◌≤◌, ◌<◌, ◌≡◌, sym, ◌≢◌, inl, inr, arith, Bool, true, false, ℤ, length, none, some,
  update, subst, count_below, count_below-update,
}
use undergraduate_project.Rdma.Peers.{Peer, Peers, Log, is_peer_alive}
use undergraduate_project.Rdma.Socket.{
  Socket, Received, init, create_id, post, post_send, on_addr_resolved, on_connection_request,
  on_connection_established, on_disconnected, finish_init,
}
use undergraduate_project.Rdma.Events.{
  Site, Step, created, addr_resolved, requested, established, disconnected, ready, Reach, here,
  later, IsOrderly, AllOrderly, fresh_link, lost_link, build_connection-known,
  on_disconnected-known, on_connection_established-known, finish_init-known,
}

abbrev pub is_connected : Peer → Bool
is_connected p = p.connected

-- A handle belongs to one peer, which has that handle; a connected peer has one; and every
-- connection that was counted is there, or was lost.
pub record Inv (c : Site) (s : Socket) : Type 0 where
  pub named : (cm p : ℕ) → s.cm2id cm ≡ some p → (s.peers p).cm_id ≡ some cm
  pub mapped : (cm p : ℕ) → (s.peers p).cm_id ≡ some cm → s.cm2id cm ≡ some p
  pub known : (cm p : ℕ) → s.cm2id cm ≡ some p → (p < length c.ids) × (p ≢ c.my_id)
  pub linked : (p : ℕ) → (s.peers p).connected ≡ true → (s.peers p).cm_id ≢ none
  pub counted :
      (s.incoming_conns ≤ count_below is_connected (length c.ids) s.peers + s.log.degraded)

module _ (c : Site) (s : Socket) (inv : Inv c s) where
  created-Inv :
      (cm p : ℕ)
      → s.cm2id cm ≡ none
      → (s.peers p).cm_id ≡ none
      → p < length c.ids
      → p ≢ c.my_id
      → Inv c (create_id s p cm)
  unfolding create_id
  created-Inv cm p fresh unlinked below other = record {
    named = λ cm' q e. ground (arith, inv.named cm' q);
    mapped = λ cm' q e. ground (arith, inv.mapped cm' q);
    known = λ cm' q e. ground (arith, inv.known cm' q);
    linked = λ q e. ground (arith, inv.linked q);
    counted = ground (
      arith,
      inv.counted,
      count_below-update is_connected (length c.ids) s.peers p
          (record (s.peers p) { cm_id = some cm }),
    );
  }

  addr_resolved-Inv :
      (cm p : ℕ)
      → s.cm2id cm ≡ some p
      → (s.peers p).connected ≡ false
      → Inv c (on_addr_resolved s cm)
  unfolding on_addr_resolved
  addr_resolved-Inv cm p e off = subst (Inv c) (sym (build_connection-known s cm p e)) record {
    named = λ cm' q h. ground (arith, inv.named cm' q, inv.named cm p);
    mapped = λ cm' q h. ground (arith, inv.mapped cm' q);
    known = λ cm' q h. inv.known cm' q h;
    linked = λ q h. ground (arith, inv.linked q);
    counted = ground (
      arith,
      inv.counted,
      inv.known cm p e,
      count_below-update is_connected (length c.ids) s.peers p (fresh_link cm (s.peers p)),
    );
  }

  disconnected-Inv : (cm p : ℕ) → s.cm2id cm ≡ some p → Inv c (on_disconnected s cm)
  unfolding undergraduate_project.Rdma.Peers.on_disconnected
  disconnected-Inv cm p e = subst (Inv c) (sym (on_disconnected-known s cm p e)) record {
    named = λ cm' q h. ground (arith, inv.named cm' q, inv.named cm p e, inv.mapped cm q);
    mapped = λ cm' q h. ground (arith, inv.mapped cm' q, inv.mapped cm q);
    known = λ cm' q h. ground (arith, inv.known cm' q);
    linked = λ q h. ground (arith, inv.linked q);
    counted = ground (
      arith,
      inv.counted,
      inv.known cm p e,
      count_below-update is_connected (length c.ids) s.peers p (lost_link (s.peers p)),
    );
  }

  requested-Inv :
      (cm p : ℕ)
      → s.cm2id cm ≡ none
      → (s.peers p).cm_id ≡ none
      → p < length c.ids
      → p ≢ c.my_id
      → Inv c (on_connection_request s cm p)
  unfolding on_connection_request
  requested-Inv cm p fresh unlinked below other =
      let asked : Socket = record s { cm2id = update s.cm2id cm (some p) } in
      let there : asked.cm2id cm ≡ some p = ground arith in
      subst (Inv c) (sym (build_connection-known asked cm p there)) record {
        named = λ cm' q h. ground (arith, inv.named cm' q);
        mapped = λ cm' q h. ground (arith, inv.mapped cm' q);
        known = λ cm' q h. ground (arith, inv.known cm' q);
        linked = λ q h. ground (arith, inv.linked q);
        counted = ground (
          arith,
          inv.counted,
          inv.linked p,
          count_below-update is_connected (length c.ids) s.peers p (fresh_link cm (s.peers p)),
        );
      }

  established-Inv :
      (cm p : ℕ) (received : Received) {t : Socket}
      → s.cm2id cm ≡ some p
      → (s.peers p).connected ≡ false
      → on_connection_established c.message_size s cm received ≡ some t
      → Inv c t
  unfolding post_send post
  established-Inv cm p received e off h =
      elim (on_connection_established-known c.message_size s cm p received e h) [
        | inl (running, same) ↦ subst (Inv c) (sym same) record {
          named = inv.named;
          mapped = inv.mapped;
          known = inv.known;
          linked = inv.linked;
          counted = inv.counted;
        }
        | inr (first, mr, same) ↦ subst (Inv c) (sym same) record {
          named = λ cm' q h. ground (arith, inv.named cm' q, inv.named cm p e);
          mapped = λ cm' q h. ground (arith, inv.mapped cm' q);
          known = λ cm' q h. inv.known cm' q h;
          linked = λ q h. ground (arith, inv.linked q, inv.named cm p e);
          counted = ground (
            arith,
            inv.counted,
            inv.known cm p e,
            count_below-update is_connected (length c.ids) s.peers p
                (record (s.peers p) { peer_mr = mr; connected = true }),
          );
        }
      ]

  ready-Inv : {t : Socket} → finish_init c.base c.my_id c.ids s ≡ some t → Inv c t
  unfolding finish_init
  ready-Inv h = subst (Inv c) (sym (finish_init-known c s h).1) record {
    named = inv.named;
    mapped = inv.mapped;
    known = inv.known;
    linked = inv.linked;
    counted = inv.counted;
  }

Step-Inv : {c : Site} {s t : Socket} (st : Step c s t) → IsOrderly st → Inv c s → Inv c t
Step-Inv {c} {s} (created cm p a d) o inv = created-Inv c s inv cm p a o.0 d o.1
Step-Inv {c} {s} (addr_resolved cm p e) o inv = addr_resolved-Inv c s inv cm p e o
Step-Inv {c} {s} (requested cm p a d) o inv = requested-Inv c s inv cm p a o.0 d o.1
Step-Inv {c} {s} (established cm p r e h) o inv = established-Inv c s inv cm p r e o h
Step-Inv {c} {s} (disconnected cm p e) o inv = disconnected-Inv c s inv cm p e
Step-Inv {c} {s} (ready h) o inv = ready-Inv c s inv h

init-Inv : (c : Site) (stat : ℕ → ℤ) (log : Log) → Inv c (init stat log)
unfolding init
init-Inv c stat log = record {
  named = λ cm q h. cc;
  mapped = λ cm q h. cc;
  known = λ cm q h. cc;
  linked = λ q h. cc;
  counted = omega arith;
}

-- After events in which a link is made only to another node that has none, and a connected peer does not connect
-- once more: the handles and the peers that they belong to are paired one to one, no handle belongs to the
-- node itself, every connected peer has a handle, and no more connections were counted than are there or
-- were lost.
pub Reach-Inv :
    (c : Site) (stat : ℕ → ℤ) (log : Log) {s : Socket} (r : Reach c (init stat log) s)
    → AllOrderly r
    → Inv c s
Reach-Inv c stat log here o = init-Inv c stat log
Reach-Inv c stat log (later r st) o = Step-Inv st o.1 (Reach-Inv c stat log r o.0)
