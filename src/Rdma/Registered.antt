-- ===== src/Rdma/Registered.antt =====
-- What holds of the links after events in any order at all: with recovery, and when a peer asks for a new link
-- before the loss of its old one is noticed.
use undergraduate_project.Shared.{
  ℕ, ◌<◌, ◌≡◌, sym, ◌≢◌, inl, inr, arith, true, ℤ, length, none, some, update, subst,
}
use undergraduate_project.Rdma.Peers.{Log}
use undergraduate_project.Rdma.Socket.{
  Socket, Received, init, create_id, post, post_send, build_connection, on_addr_resolved,
  on_connection_request, on_connection_established, on_disconnected,
}
use undergraduate_project.Rdma.Events.{
  Site, Step, created, addr_resolved, requested, established, disconnected, ready, Reach, here,
  later, build_connection-known, on_disconnected-known, on_connection_established-known,
  finish_init-known,
}

-- The handle of a peer belongs to that peer, a handle to a node of the configuration, and the buffers of a link
-- to a peer with a handle.
pub record IsRegistered (c : Site) (s : Socket) : Type 0 where
  pub mapped : (cm p : ℕ) → (s.peers p).cm_id ≡ some cm → s.cm2id cm ≡ some p
  pub inside : (cm p : ℕ) → s.cm2id cm ≡ some p → p < length c.ids
  pub backed : (p : ℕ) → (s.peers p).has_regions ≡ true → (s.peers p).cm_id ≢ none

module _ (c : Site) (s : Socket) (reg : IsRegistered c s) where
  resolved-IsRegistered : (cm p : ℕ) → s.cm2id cm ≡ some p → IsRegistered c (build_connection s cm)
  resolved-IsRegistered cm p e =
      subst (IsRegistered c) (sym (build_connection-known s cm p e)) record {
        mapped = λ cm' q h. ground (arith, reg.mapped cm' q);
        inside = λ cm' q h. reg.inside cm' q h;
        backed = λ q h. ground (arith, reg.backed q);
      }

  named-IsRegistered :
      (cm p : ℕ)
      → s.cm2id cm ≡ none
      → p < length c.ids
      → IsRegistered c (record s { cm2id = update s.cm2id cm (some p) })
  named-IsRegistered cm p fresh below = record {
    mapped = λ cm' q h. ground (arith, reg.mapped cm' q);
    inside = λ cm' q h. ground (arith, reg.inside cm' q);
    backed = reg.backed;
  }

  created-IsRegistered :
      (cm p : ℕ) → s.cm2id cm ≡ none → p < length c.ids → IsRegistered c (create_id s p cm)
  unfolding create_id
  created-IsRegistered cm p fresh below = record {
    mapped = λ cm' q h. ground (arith, reg.mapped cm' q);
    inside = λ cm' q h. ground (arith, reg.inside cm' q);
    backed = λ q h. ground (arith, reg.backed q);
  }

  disconnected-IsRegistered :
      (cm p : ℕ) → s.cm2id cm ≡ some p → IsRegistered c (on_disconnected s cm)
  disconnected-IsRegistered cm p e =
      subst (IsRegistered c) (sym (on_disconnected-known s cm p e)) record {
        mapped = λ cm' q h. ground (arith, reg.mapped cm' q, reg.mapped cm q);
        inside = λ cm' q h. ground (arith, reg.inside cm' q);
        backed = λ q h. ground (arith, reg.backed q);
      }

  established-IsRegistered :
      (cm p : ℕ) (received : Received) {t : Socket}
      → s.cm2id cm ≡ some p
      → on_connection_established c.message_size s cm received ≡ some t
      → IsRegistered c t
  unfolding post_send post
  established-IsRegistered cm p received e h =
      elim (on_connection_established-known c.message_size s cm p received e h) [
        | inl (running, same) ↦
            subst (IsRegistered c) (sym same)
              (record { mapped = reg.mapped; inside = reg.inside; backed = reg.backed })
        | inr (first, mr, same) ↦ subst (IsRegistered c) (sym same) record {
          mapped = λ cm' q h. ground (arith, reg.mapped cm' q);
          inside = reg.inside;
          backed = λ q h. ground (arith, reg.backed q);
        }
      ]

Step-IsRegistered : {c : Site} {s t : Socket} → Step c s t → IsRegistered c s → IsRegistered c t
unfolding on_addr_resolved on_connection_request
Step-IsRegistered {c} {s} (created cm p a d) reg = created-IsRegistered c s reg cm p a d
Step-IsRegistered {c} {s} (addr_resolved cm p e) reg = resolved-IsRegistered c s reg cm p e
Step-IsRegistered {c} {s} (requested cm p a d) reg =
    resolved-IsRegistered c (record s { cm2id = update s.cm2id cm (some p) })
      (named-IsRegistered c s reg cm p a d) cm p (ground arith)
Step-IsRegistered {c} {s} (established cm p r e h) reg = established-IsRegistered c s reg cm p r e h
Step-IsRegistered {c} {s} (disconnected cm p e) reg = disconnected-IsRegistered c s reg cm p e
Step-IsRegistered {c} {s} (ready h) reg =
    subst (IsRegistered c) (sym (finish_init-known c s h).1)
      (record { mapped = reg.mapped; inside = reg.inside; backed = reg.backed })

-- After events in any order, also when a node links to itself or a peer asks for a link while it has one: the
-- handle that a peer has belongs to that peer, every handle belongs to a node of the configuration, and a peer
-- with the buffers of a link has a handle.
pub Reach-IsRegistered :
    (c : Site) (stat : ℕ → ℤ) (log : Log) {s : Socket}
    → Reach c (init stat log) s
    → IsRegistered c s
unfolding init
Reach-IsRegistered c stat log here = record {
  mapped = λ cm q h. cc;
  inside = λ cm q h. cc;
  backed = λ q h. cc;
}
Reach-IsRegistered c stat log (later r st) = Step-IsRegistered st (Reach-IsRegistered c stat log r)
