-- ===== src/Rdma/Contexts.antt =====
-- The ids of the requests that `RDMASocket` posts, over every order of the events of its channel and of
-- the calls of its users. The RDMA library puts the context of a request into the id of its completion.
use undergraduate_project.Shared.{
  ℕ, ◌≡◌, refl, sym, ap, ◌∙◌, arith, ◌==◌, if◌then◌else◌, Bool, true, false, ℤ, List, [], ◌∷◌, some,
  subst, Bool-cases, inl, inr, update,
}
use undergraduate_project.Rdma.Peers.{Log, process_recv_write_with_imm}
use undergraduate_project.Rdma.WorkId.{extract_x, extract_y}
use undergraduate_project.Rdma.Socket.{
  Posted, Socket, post, post_send, post_receive, post_write, Verb, init, create_id, peer_of,
  build_connection, on_addr_resolved, on_connection_request, test_writes, page_bytes, stop_listener,
}
use undergraduate_project.Rdma.Events.{
  Site, Step, created, addr_resolved, requested, established, disconnected, ready,
  on_connection_established-known, finish_init-known, on_disconnected-known,
}
use undergraduate_project.Rdma.Completions.{Wc}

abbrev pub AllWithoutContext : List Posted → Type 0
AllWithoutContext [] = Unit
AllWithoutContext (p ∷ ps) = (p.context ≡ 0) × AllWithoutContext ps

pub data IsPosted (p : Posted) : List Posted → Type 0 where
  newest : {q : Posted} {ps : List Posted} → p ≡ q → IsPosted p (q ∷ ps)
  older : {q : Posted} {ps : List Posted} → IsPosted p ps → IsPosted p (q ∷ ps)

-- A request that is posted while the socket runs.
added-AllWithoutContext :
    (b : Bool) (q : Posted) (ps : List Posted)
    → q.context ≡ 0
    → AllWithoutContext ps
    → AllWithoutContext (if b then q ∷ ps else ps)
added-AllWithoutContext true q ps bare h = (bare, h)
added-AllWithoutContext false q ps bare h = h

post-AllWithoutContext :
    (s : Socket) (peer_id len : ℕ) (verb : Verb)
    → AllWithoutContext s.posted
    → AllWithoutContext (post s peer_id len verb).posted
unfolding post
post-AllWithoutContext s peer_id len verb h = added-AllWithoutContext s.should_run _ s.posted refl h

test_writes-AllWithoutContext :
    (base : ℕ → ℕ) (my_id : ℕ) (ids : List ℕ) (s : Socket)
    → AllWithoutContext s.posted
    → AllWithoutContext (test_writes base my_id ids s).posted
unfolding test_writes post_write
test_writes-AllWithoutContext base my_id [] s h = h
test_writes-AllWithoutContext base my_id (id ∷ ids) s h =
    test_writes-AllWithoutContext base my_id ids
      (if id == my_id then s else post_write s (base id) id 0 page_bytes)
      (elim (Bool-cases (id == my_id)) [
        | inl myself ↦ rw myself h
        | inr other ↦ rw other (post-AllWithoutContext s id page_bytes _ h)
      ])

peer_of-posted : (s : Socket) (cm : ℕ) → (peer_of s cm).1.posted ≡ s.posted
unfolding peer_of
peer_of-posted s cm = ground arith

build-AllWithoutContext :
    (s : Socket) (cm : ℕ)
    → AllWithoutContext s.posted
    → AllWithoutContext (build_connection s cm).posted
unfolding build_connection post_receive post
build-AllWithoutContext s cm h =
    added-AllWithoutContext (peer_of s cm).1.should_run _ (peer_of s cm).1.posted refl
      (subst AllWithoutContext (sym (peer_of-posted s cm)) h)

Step-AllWithoutContext :
    {c : Site} {s t : Socket} → Step c s t → AllWithoutContext s.posted → AllWithoutContext t.posted
unfolding create_id on_addr_resolved on_connection_request post_send
Step-AllWithoutContext (created cm p a d) h = h
Step-AllWithoutContext {s} (addr_resolved cm p e) h = build-AllWithoutContext s cm h
Step-AllWithoutContext {s} (requested cm p a d) h =
    build-AllWithoutContext (record s { cm2id = update s.cm2id cm (some p) }) cm h
Step-AllWithoutContext {c} {s} (established cm p r e k) h =
    let sent = post-AllWithoutContext s p c.message_size _ h in
    elim (on_connection_established-known c.message_size s cm p r e k) [
      | inl (running, same) ↦ subst (λ t. AllWithoutContext t.posted) (sym same) sent
      | inr (first, mr, same) ↦ subst (λ t. AllWithoutContext t.posted) (sym same) sent
    ]
Step-AllWithoutContext {s} (disconnected cm p e) h =
    subst (λ t. AllWithoutContext t.posted) (sym (on_disconnected-known s cm p e)) h
Step-AllWithoutContext {c} {s} (ready k) h =
    subst (λ t. AllWithoutContext t.posted) (sym (finish_init-known c s k).1)
      (test_writes-AllWithoutContext c.base c.my_id c.ids s h)

-- What becomes of a socket: the events of its channel; the requests that its users post to any peer, as the
-- listener and the calls of `RPCInterface`, `syncAmongPeers` and `ECAL` do; a write that is polled; and the end of
-- the posting.
pub data Life (c : Site) (s : Socket) : Socket → Type 0 where
  at_start : Life c s s
  event : {t u : Socket} → Life c s t → Step c t u → Life c s u
  request :
      {t : Socket} (peer_id len : ℕ) (verb : Verb) → Life c s t → Life c s (post t peer_id len verb)
  logged :
      {t : Socket} (capacity blkno : ℕ)
      → Life c s t
      → Life c s (record t { log = process_recv_write_with_imm capacity t.log blkno })
  stopped : {t : Socket} (is_main : Bool) → Life c s t → Life c s (stop_listener is_main t)

stop_listener-posted : (is_main : Bool) (s : Socket) → (stop_listener is_main s).posted ≡ s.posted
unfolding stop_listener
stop_listener-posted is_main s = ground arith

Life-AllWithoutContext :
    {c : Site} {s t : Socket} → Life c s t → AllWithoutContext s.posted → AllWithoutContext t.posted
Life-AllWithoutContext at_start h = h
Life-AllWithoutContext (event r st) h = Step-AllWithoutContext st (Life-AllWithoutContext r h)
Life-AllWithoutContext (request {t} peer_id len verb r) h =
    post-AllWithoutContext t peer_id len verb (Life-AllWithoutContext r h)
Life-AllWithoutContext (logged capacity blkno r) h = Life-AllWithoutContext r h
Life-AllWithoutContext (stopped {t} is_main r) h =
    subst AllWithoutContext (sym (stop_listener-posted is_main t)) (Life-AllWithoutContext r h)

posted_context :
    {p : Posted} {ps : List Posted} → IsPosted p ps → AllWithoutContext ps → p.context ≡ 0
posted_context (newest same) h = ap (λ q. q.context) same ∙ h.0
posted_context (older at) h = posted_context at h.1

-- Whichever link a request was posted to, and in whatever order the events and the calls came, its completion
-- carries the peer 0 and the task 0, when the completion's id is the context of the request.
pub completions_name_peer_0 :
    (c : Site) (stat : ℕ → ℤ) (log : Log) (s : Socket) (p : Posted) (wc : Wc)
    → Life c (init stat log) s
    → IsPosted p s.posted
    → wc.wr_id ≡ p.context
    → (extract_x wc.wr_id ≡ 0) × (extract_y wc.wr_id ≡ 0)
unfolding init extract_x extract_y
completions_name_peer_0 c stat log s p wc r at carried =
    let bare : wc.wr_id ≡ 0 = carried ∙ posted_context at (Life-AllWithoutContext r tt) in
    rw bare (refl, refl)
