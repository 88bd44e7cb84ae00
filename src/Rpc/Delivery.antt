-- ===== src/Rpc/Delivery.antt =====
-- Which messages the threads are handed, over every order of their turns.
use undergraduate_project.Shared.{
  ℕ, ◌<◌, ◌≡◌, refl, ◌∙◌, ◌⊎◌, inl, inr, arith, true, false, List, [], ◌∷◌, ◌++◌, length, some,
  Bool-cases, Option-cases,
}
use undergraduate_project.Rdma.Completions.{Wc}
use undergraduate_project.Rpc.Message.{Message, ReqBuf, is_call, is_response}
use undergraduate_project.Rpc.Interface.{
  Interface, capacity, push, distribute, received, deliver, answer, call_send, call_receive,
}
use undergraduate_project.Rpc.Traffic.{
  Traffic, Step, landed, arrival, service, sending, reply, special_reply, Reach, here, later,
  is_special, IsKept, push-IsKept, other-IsKept, pop-IsKept,
}

-- Where a message goes.
distribute-cases :
    (s : Interface) (b : ReqBuf) {t : Interface}
    → distribute s b ≡ some t
    → ((is_call b.msg.type ≡ true)
        × (length s.rq < capacity)
        × (t ≡ record s { rq = s.rq ++ b ∷ [] }))
      ⊎ ((is_call b.msg.type ≡ false)
          × (is_response b.msg.type ≡ true)
          × (length s.sq < capacity)
          × (t ≡ record s { sq = s.sq ++ b ∷ [] }))
      ⊎ ((is_call b.msg.type ≡ false)
          × (is_response b.msg.type ≡ false)
          × (length s.oq < capacity)
          × (t ≡ record s { oq = s.oq ++ b ∷ [] }))
unfolding distribute push
distribute-cases s b h = ground (arith, h)

pub record Inv (s : Traffic) : Type 0 where
  pub calls : IsKept is_call s.served s.iface.rq s.taken_up
  pub responses : IsKept is_response s.answered s.iface.sq s.taken_up
  pub specials : IsKept is_special s.special s.iface.oq s.taken_up

-- A queue is filled with one kind of message.
distributed-Inv :
    (s : Traffic) (b : ReqBuf) {t : Interface}
    → distribute s.iface b ≡ some t
    → Inv s
    → Inv (record s { iface = t; taken_up = s.taken_up ++ b ∷ [] })
distributed-Inv s b {t} h inv = elim (distribute-cases s.iface b h) [
  | inl (call, room, same) ↦ rw same (record {
    calls = push-IsKept is_call s.served s.iface.rq s.taken_up b call room inv.calls;
    responses =
        other-IsKept is_response s.answered s.iface.sq s.taken_up b (ground arith) inv.responses;
    specials =
        other-IsKept is_special s.special s.iface.oq s.taken_up b (ground arith) inv.specials;
  })
  | inr (inl (no_call, response, room, same)) ↦ rw same (record {
    calls = other-IsKept is_call s.served s.iface.rq s.taken_up b no_call inv.calls;
    responses =
        push-IsKept is_response s.answered s.iface.sq s.taken_up b response room inv.responses;
    specials =
        other-IsKept is_special s.special s.iface.oq s.taken_up b (ground arith) inv.specials;
  })
  | inr (inr (no_call, no_response, room, same)) ↦ rw same (record {
    calls = other-IsKept is_call s.served s.iface.rq s.taken_up b no_call inv.calls;
    responses =
        other-IsKept is_response s.answered s.iface.sq s.taken_up b no_response inv.responses;
    specials =
        push-IsKept is_special s.special s.iface.oq s.taken_up b (ground arith) room inv.specials;
  })
]

deliver-distribute :
    (size : ℕ) (s : Interface) (wc : Wc) {t : Interface}
    → deliver size s wc ≡ some t
    → (u : Interface) × (distribute s (received s wc) ≡ some u)
      × (t.rq ≡ u.rq)
      × (t.sq ≡ u.sq)
      × (t.oq ≡ u.oq)
unfolding deliver
deliver-distribute size s wc h = elim (Option-cases (distribute s (received s wc))) [
  | inl full ↦ absurd (ground (arith, rw (deliver, full) at h))
  | inr (u, ok) ↦
      let same = rw (deliver, ok) at h in
      (u, ok, ground (arith, same), ground (arith, same), ground (arith, same))
]

-- `Inv` reads only the queues of the interface.
same_queues-Inv :
    (s : Traffic) (t : Interface)
    → t.rq ≡ s.iface.rq
    → t.sq ≡ s.iface.sq
    → t.oq ≡ s.iface.oq
    → Inv s
    → Inv (record s { iface = t })
same_queues-Inv s t rq sq oq inv = record {
  calls = rw rq inv.calls;
  responses = rw sq inv.responses;
  specials = rw oq inv.specials;
}

List-cases :
    (xs : List ReqBuf) → (xs ≡ []) ⊎ ((x : ReqBuf) × (rest : List ReqBuf) × (xs ≡ x ∷ rest))
List-cases [] = inl refl
List-cases (x ∷ rest) = inr (x, rest, refl)

call_receive-cases :
    (s : Interface) (request : Message) (b : ReqBuf) {t : Interface}
    → call_receive s request ≡ some (t, b)
    → ((is_call request.type ≡ true)
        × (rest : List ReqBuf) × (s.sq ≡ b ∷ rest)
        × (t ≡ record s { sq = rest }))
      ⊎ ((is_call request.type ≡ false)
          × (rest : List ReqBuf) × (s.oq ≡ b ∷ rest)
          × (t ≡ record s { oq = rest }))
unfolding call_receive
call_receive-cases s request b h = elim (Bool-cases (is_call request.type)) [
  | inl call ↦ elim (List-cases s.sq) [
    | inl empty ↦ absurd (ground (arith, rw (call_receive, call, empty) at h))
    | inr (a, rest, e) ↦
        let same = rw (call_receive, call, e) at h in
        inl (call, rest, e ∙ ground (arith, same), ground (arith, same))
  ]
  | inr no_call ↦ elim (List-cases s.oq) [
    | inl empty ↦ absurd (ground (arith, rw (call_receive, no_call, empty) at h))
    | inr (a, rest, e) ↦
        let same = rw (call_receive, no_call, e) at h in
        inr (no_call, rest, e ∙ ground (arith, same), ground (arith, same))
  ]
]

Step-Inv : {size : ℕ} {s t : Traffic} → Step size s t → Inv s → Inv t
unfolding answer call_send undergraduate_project.Rpc.Interface.send_message
Step-Inv {s} (landed p m) inv = same_queues-Inv s _ refl refl refl inv
Step-Inv {size} {s} (arrival wc {t} h) inv =
    let (u, ok, rq, sq, oq) = deliver-distribute size s.iface wc h in
    same_queues-Inv (record s { iface = u; taken_up = s.taken_up ++ received s.iface wc ∷ [] }) t rq
      sq oq (distributed-Inv s (received s.iface wc) ok inv)
Step-Inv {s} (service b rest e) inv = record {
  calls = pop-IsKept is_call s.served rest s.taken_up b (rw e at inv.calls);
  responses = inv.responses;
  specials = inv.specials;
}
Step-Inv {s} (sending p request) inv = same_queues-Inv s _ refl refl refl inv
Step-Inv {s} (reply request b kind h) inv = elim (call_receive-cases s.iface request b h) [
  | inl (call, rest, e, same) ↦ rw same (record {
    calls = inv.calls;
    responses = pop-IsKept is_response s.answered rest s.taken_up b (rw e at inv.responses);
    specials = inv.specials;
  })
  | inr (no_call, rest, e, same) ↦ absurd (ground arith)
]
Step-Inv {s} (special_reply request b kind h) inv = elim (call_receive-cases s.iface request b h) [
  | inl (call, rest, e, same) ↦ absurd (ground arith)
  | inr (no_call, rest, e, same) ↦ rw same (record {
    calls = inv.calls;
    responses = inv.responses;
    specials = pop-IsKept is_special s.special rest s.taken_up b (rw e at inv.specials);
  })
]

abbrev pub IsIdle : Interface → Type 0
IsIdle s = (s.rq ≡ []) × (s.sq ≡ []) × (s.oq ≡ [])

abbrev pub quiet : Interface → Traffic
quiet s = record { iface = s; taken_up = []; served = []; answered = []; special = [] }

-- From empty queues on and in every order of the threads: the requests that were served and those still
-- queued are the calls among the messages that `rdmaListen` read from the buffers which its completions named,
-- each reading once and in the order of the readings; so are the replies that callers got and the responses,
-- and the special ones and all other messages; and no queue holds more than its capacity. Whether the
-- buffer that is named has the message that came is not part of it.
pub each_kind_in_order :
    (size : ℕ) (s : Interface) (t : Traffic) → IsIdle s → Reach size (quiet s) t → Inv t
each_kind_in_order size s _ idle here = record {
  calls = rw (idle.0) (refl, omega arith);
  responses = rw (idle.1) (refl, omega arith);
  specials = rw (idle.2) (refl, omega arith);
}
each_kind_in_order size s _ idle (later {t} r st) = Step-Inv st (each_kind_in_order size s t idle r)
