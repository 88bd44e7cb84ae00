-- ===== src/Netif/Calls.antt =====
-- `rpcCall` and `contFunc`: a call takes a slot of the bitmap, and the event loop runs until the slot's
-- response has come. The library fills the buffer of a slot before it calls `contFunc` with its number.
use undergraduate_project.Shared.{
  ℕ, ◌+◌, ◌-◌, if◌then◌else◌, Bool, true, false, Text, List, [], ◌∷◌, Option, none, some, take,
  update,
}
use undergraduate_project.Bitmap.Alloc.{Round, allocated, exhausted, running, alloc_bit, free_bit}
use undergraduate_project.Netif.Sessions.{ErpcType}

abbrev pub lockers : ℕ
lockers = 32

pub record Request : Type 0 where
  pub session : ℕ
  pub type : ErpcType
  pub payload : Text
  pub tag : ℕ

-- `word` is that of the bitmap, `buffers` the number of request buffers that are allocated, and `queued`
-- what the library was handed, the last request first.
pub record Netif : Type 0 where
  pub sessions : ℕ → ℕ
  pub word : ℕ
  pub completed : ℕ → Bool
  pub resp_buf : ℕ → Text
  pub buffers : ℕ
  pub queued : List Request

unfoldable pub cont_func : Netif → ℕ → Netif
cont_func s tag = record s { completed = update s.completed tag true }

-- A response: the tag of its request, and its bytes.
abbrev pub Response : Type 0
Response = ℕ × Text

unfoldable pub take_response : Netif → Response → Netif
unfolding cont_func
take_response s r = cont_func (record s { resp_buf = update s.resp_buf r.0 r.1 }) r.0

-- `run_event_loop_once`, with the responses that come in it.
unfoldable pub event_turn : Netif → List Response → Netif
unfolding take_response
event_turn s [] = s
event_turn s (r ∷ rs) = event_turn (take_response s r) rs

-- `none` while the loop runs.
unfoldable pub wait_for : ℕ → Netif → List (List Response) → Option Netif
unfolding event_turn
wait_for idx s [] = if s.completed idx then some s else none
wait_for idx s (turn ∷ turns) =
    let later = wait_for idx (event_turn s turn) turns in if s.completed idx then some s else later

pub data Called : Type 0 where
  refused : Netif → Called
  waiting : Called
  returned : Netif → Text → Called

-- The call after its slot is given: `size` is the size of the response's struct, `word` is the bitmap then, and `free_rounds` what `freeBit` meets.
unfoldable pub call_in_slot :
    Netif → ℕ → ErpcType → Text → ℕ → ℕ → ℕ → List (List Response) → List Round → Called
unfolding wait_for
call_in_slot s peer_id type payload size idx word turns free_rounds =
    let asked : Netif = record s {
      word = word;
      completed = update s.completed idx false;
      queued =
          (record { session = s.sessions peer_id; type = type; payload = payload; tag = idx })
          ∷ s.queued;
    } in
    elim (wait_for idx asked turns) [
      | none ↦ waiting
      | some t ↦ elim (free_bit idx free_rounds) [
        | none ↦ waiting
        | some freed ↦
            returned (record t { buffers = t.buffers - 1; word = freed })
              (take size (t.resp_buf idx))
      ]
    ]

unfoldable pub rpc_call :
    Netif → ℕ → ErpcType → Text → ℕ → List Round → List (List Response) → List Round → Called
unfolding call_in_slot
rpc_call s peer_id type payload size rounds turns free_rounds =
    let buffered : Netif = record s { buffers = s.buffers + 1 } in
    elim (alloc_bit lockers s.word rounds) [
      | allocated idx word ↦
          call_in_slot buffered peer_id type payload size idx word turns free_rounds
      | exhausted ↦ refused buffered
      | running ↦ waiting
    ]
