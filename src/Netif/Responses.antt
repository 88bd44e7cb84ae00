-- ===== src/Netif/Responses.antt =====
-- What a call gives, over every order in which the responses come.
use undergraduate_project.Shared.{
  ℕ, ◌+◌, ◌-◌, ◌≡◌, refl, sym, ap, ◌∙◌, ◌≢◌, arith, true, false, Text, List, [], ◌∷◌, ◌++◌, some,
  take, update, Bool-cases, Option-cases, inl, inr,
}
use undergraduate_project.Bitmap.Alloc.{Round, allocated, exhausted, running, alloc_bit, free_bit}
use undergraduate_project.Netif.Sessions.{ErpcType}
use undergraduate_project.Netif.Calls.{
  lockers, Netif, cont_func, Response, take_response, event_turn, wait_for, Called, refused,
  waiting, returned, call_in_slot, rpc_call,
}

-- No response in a turn is for the slot.
abbrev pub AllOthers : ℕ → List Response → Type 0
AllOthers idx [] = Unit
AllOthers idx (r ∷ rs) = (r.0 ≢ idx) × AllOthers idx rs

abbrev pub AllQuiet : ℕ → List (List Response) → Type 0
AllQuiet idx [] = Unit
AllQuiet idx (turn ∷ turns) = AllOthers idx turn × AllQuiet idx turns

-- Responses for other slots leave a slot alone, and no turn of the loop touches the rest.
event_turn_others :
    (idx : ℕ) (s : Netif) (rs : List Response)
    → AllOthers idx rs
    → ((event_turn s rs).completed idx ≡ s.completed idx)
      × ((event_turn s rs).resp_buf idx ≡ s.resp_buf idx)
unfolding event_turn take_response cont_func
event_turn_others idx s [] h = (refl, refl)
event_turn_others idx s (r ∷ rs) h =
    ground (arith, event_turn_others idx (take_response s r) rs h.1, h.0)

event_turn_rest :
    (s : Netif) (rs : List Response)
    → ((event_turn s rs).buffers ≡ s.buffers) × ((event_turn s rs).queued ≡ s.queued)
unfolding event_turn take_response cont_func
event_turn_rest s [] = (refl, refl)
event_turn_rest s (r ∷ rs) = event_turn_rest (take_response s r) rs

event_turn-append :
    (s : Netif) (xs ys : List Response) → event_turn s (xs ++ ys) ≡ event_turn (event_turn s xs) ys
unfolding event_turn
event_turn-append s [] ys = refl
event_turn-append s (x ∷ xs) ys = event_turn-append (take_response s x) xs ys

wait_done :
    (idx : ℕ) (s : Netif) (turns : List (List Response))
    → s.completed idx ≡ true
    → wait_for idx s turns ≡ some s
unfolding wait_for
wait_done idx s [] done = rw (wait_for, done) refl
wait_done idx s (turn ∷ turns) done = rw (wait_for, done) refl

wait_on :
    (idx : ℕ) (s : Netif) (turn : List Response) (turns : List (List Response))
    → s.completed idx ≡ false
    → wait_for idx s (turn ∷ turns) ≡ wait_for idx (event_turn s turn) turns
unfolding wait_for
wait_on idx s turn turns more = rw (wait_for, more) refl

-- The turn that brings the response of the slot.
answered_turn :
    (idx : ℕ) (s : Netif) (before after : List Response) (r : Text)
    → AllOthers idx after
    → let t = event_turn s (before ++ (idx, r) ∷ after) in
      (t.completed idx ≡ true) × (t.resp_buf idx ≡ r)
unfolding event_turn take_response cont_func
answered_turn idx s before after r h =
    let u = event_turn s before in
    let quiet = event_turn_others idx (take_response u (idx, r)) after h in
    let split = event_turn-append s before ((idx, r) ∷ after) in
    (
      ap (λ t. t.completed idx) split ∙ quiet.0 ∙ ground arith,
      ap (λ t. t.resp_buf idx) split ∙ quiet.1 ∙ ground arith,
    )

wait_answered :
    (idx : ℕ) (s : Netif) (quiet : List (List Response)) (before after : List Response) (r : Text)
    (rest : List (List Response))
    → AllQuiet idx quiet
    → AllOthers idx after
    → s.completed idx ≡ false
    → (t : Netif) × (wait_for idx s (quiet ++ (before ++ (idx, r) ∷ after) ∷ rest) ≡ some t)
      × (t.resp_buf idx ≡ r)
      × (t.buffers ≡ s.buffers)
      × (t.queued ≡ s.queued)
wait_answered idx s [] before after r rest none_early none_late open_slot =
    let turn = before ++ (idx, r) ∷ after in
    let came = answered_turn idx s before after r none_late in
    let kept = event_turn_rest s turn in
    (
      event_turn s turn,
      wait_on idx s turn rest open_slot ∙ wait_done idx (event_turn s turn) rest came.0,
      came.1,
      kept.0,
      kept.1,
    )
wait_answered idx s (turn ∷ quiet) before after r rest none_early none_late open_slot =
    let still = event_turn_others idx s turn none_early.0 in
    let kept = event_turn_rest s turn in
    let (t, over, resp, buffers, queued) =
      wait_answered idx (event_turn s turn) quiet before after r rest none_early.1 none_late
        (still.0 ∙ open_slot) in
    (t, wait_on idx s turn _ open_slot ∙ over, resp, buffers ∙ kept.0, queued ∙ kept.1)

-- A call that is given a slot, and whose response comes at some turn of the event loop, after any responses
-- for other slots, returns as many bytes of this response as its struct has; one request with the slot's number as its
-- tag was queued to the peer's session, the slot is freed, and no request buffer is left over.
pub call_returns_its_response :
    (s : Netif) (peer_id : ℕ) (type : ErpcType) (payload : Text) (size : ℕ)
    (rounds free_rounds : List Round) (idx word freed : ℕ) (quiet : List (List Response))
    (before after : List Response) (r : Text) (rest : List (List Response))
    → alloc_bit lockers s.word rounds ≡ allocated idx word
    → free_bit idx free_rounds ≡ some freed
    → AllQuiet idx quiet
    → AllOthers idx after
    → (t : Netif) × (rpc_call s peer_id type payload size rounds
          (quiet ++ (before ++ (idx, r) ∷ after) ∷ rest)
          free_rounds
        ≡ returned t (take size r))
      × (t.word ≡ freed)
      × (t.buffers ≡ s.buffers)
      × (t.queued
          ≡ (record { session = s.sessions peer_id; type = type; payload = payload; tag = idx })
            ∷ s.queued)
unfolding rpc_call call_in_slot
call_returns_its_response s peer_id type payload size rounds free_rounds idx word freed quiet before
      after r rest given free none_early none_late =
    let asked : Netif = record s {
      buffers = s.buffers + 1;
      word = word;
      completed = update s.completed idx false;
      queued =
          (record { session = s.sessions peer_id; type = type; payload = payload; tag = idx })
          ∷ s.queued;
    } in
    let (t, over, resp, buffers, queued) =
      wait_answered idx asked quiet before after r rest none_early none_late (ground arith) in
    let ended : Netif = record t { buffers = t.buffers - 1; word = freed } in
    (
      ended,
      rw (rpc_call, given)
          (rw (call_in_slot, over, free) (ap (λ r. returned ended (take size r)) resp)),
      refl,
      omega (arith, buffers),
      queued,
    )

-- What a call leaves, in each of its outcomes.
abbrev pub BuffersKept : Netif → Called → Type 0
BuffersKept s (refused t) = (t.buffers ≡ s.buffers + 1) × (t.queued ≡ s.queued) × (t.word ≡ s.word)
BuffersKept s waiting = Unit
BuffersKept s (returned t (r)) = t.buffers ≡ s.buffers

wait_keeps_buffers :
    (idx : ℕ) (s : Netif) (turns : List (List Response)) {t : Netif}
    → wait_for idx s turns ≡ some t
    → t.buffers ≡ s.buffers
unfolding wait_for
wait_keeps_buffers idx s [] h = ground arith
wait_keeps_buffers idx s (turn ∷ turns) {t} h = elim (Bool-cases (s.completed idx)) [
  | inl done ↦ let same = sym (wait_done idx s (turn ∷ turns) done) ∙ h in ground (arith, same)
  | inr more ↦
      wait_keeps_buffers idx (event_turn s turn) turns (sym (wait_on idx s turn turns more) ∙ h)
      ∙ (event_turn_rest s turn).0
]

call_in_slot_buffers :
    (s : Netif) (peer_id : ℕ) (type : ErpcType) (payload : Text) (size idx word : ℕ)
    (turns : List (List Response)) (free_rounds : List Round)
    → BuffersKept s (
        call_in_slot
          (record s { buffers = s.buffers + 1 })
          peer_id
          type
          payload
          size
          idx
          word
          turns
          free_rounds)
unfolding call_in_slot
call_in_slot_buffers s peer_id type payload size idx word turns free_rounds =
    let asked : Netif = record s {
      buffers = s.buffers + 1;
      word = word;
      completed = update s.completed idx false;
      queued =
          (record { session = s.sessions peer_id; type = type; payload = payload; tag = idx })
          ∷ s.queued;
    } in
    elim (Option-cases (wait_for idx asked turns)) [
      | inl on ↦ rw (call_in_slot, on) tt
      | inr (t, over) ↦
          let kept : t.buffers ≡ s.buffers + 1 = wait_keeps_buffers idx asked turns over in
          elim (Option-cases (free_bit idx free_rounds)) [
            | inl spinning ↦ rw (call_in_slot, over, spinning) tt
            | inr (freed, done) ↦ rw (call_in_slot, over, done) (omega (arith, kept))
          ]
    ]

-- Whatever the bitmap, the library and the other threads do: a call that returns leaves as many request
-- buffers as there were, and a call that is refused leaves one more, with nothing sent and no slot
-- taken.
pub refused_calls_leak :
    (s : Netif) (peer_id : ℕ) (type : ErpcType) (payload : Text) (size : ℕ)
    (rounds free_rounds : List Round) (turns : List (List Response))
    → BuffersKept s (rpc_call s peer_id type payload size rounds turns free_rounds)
unfolding rpc_call
refused_calls_leak s peer_id type payload size rounds free_rounds turns =
    elim (alloc_bit lockers s.word rounds)
      as (λ o. BuffersKept s (elim o [
        | allocated idx word ↦
            call_in_slot (record s { buffers = s.buffers + 1 }) peer_id type payload size idx word
              turns free_rounds
        | exhausted ↦ refused (record s { buffers = s.buffers + 1 })
        | running ↦ waiting
      ])) [
        | allocated idx word ↦
            call_in_slot_buffers s peer_id type payload size idx word turns free_rounds
        | exhausted ↦ (refl, refl, refl)
        | running ↦ tt
      ]
