-- ===== src/Rdma/Completions.antt =====
-- `pollSendCompletion`, for one entry and for many, and `pollRecvCompletion`. A turn is a round of their
-- loops: whether the socket still runs, and what `ibv_poll_cq` gives then. It gives at most as many
-- entries as it is asked for.
use undergraduate_project.Shared.{
  ℕ, zero, suc, ◌-◌, ◌≤◌, ◌≡◌, refl, arith, if◌then◌else◌, Bool, true, false, ◌&&◌, List, [], ◌∷◌,
  ◌++◌, length, length-append,
}
use undergraduate_project.Rdma.Peers.{LogEvent, written, process_recv_write_with_imm}
use undergraduate_project.Rdma.WorkId.{extract_x}
use undergraduate_project.Rdma.Socket.{Socket, post_receive, rdma_buf_size}

-- A completion: its request, and whether it is of a write with immediate data.
pub record Wc : Type 0 where
  pub wr_id : ℕ
  pub is_write : Bool
  pub imm_data : ℕ

pub data Polled : Type 0 where
  nothing failure : Polled
  entry : Wc → Polled

pub data Turn : Type 0 where
  turn : (running : Bool) (polled : Polled) → Turn

-- `stopped` is the result 0, and `polling` a loop that goes on.
pub data Outcome : Type 0 where
  stopped failed polling : Outcome
  completion : Wc → Outcome

unfoldable pub poll_send_completion : List Turn → Outcome
poll_send_completion [] = polling
poll_send_completion (turn false polled ∷ ts) = stopped
poll_send_completion (turn true nothing ∷ ts) = poll_send_completion ts
poll_send_completion (turn true failure ∷ ts) = failed
poll_send_completion (turn true (entry wc) ∷ ts) = completion wc

unfoldable pub take_write : ℕ → Socket → Wc → Socket
unfolding process_recv_write_with_imm post_receive
take_write capacity s wc =
    post_receive (record s { log = process_recv_write_with_imm capacity s.log wc.imm_data })
      (extract_x wc.wr_id) rdma_buf_size

unfoldable pub poll_recv_completion : ℕ → Socket → List Turn → Socket × Outcome
unfolding take_write
poll_recv_completion capacity s [] = (s, polling)
poll_recv_completion capacity s (turn false polled ∷ ts) = (s, stopped)
poll_recv_completion capacity s (turn true nothing ∷ ts) = poll_recv_completion capacity s ts
poll_recv_completion capacity s (turn true failure ∷ ts) = (s, failed)
poll_recv_completion capacity s (turn true (entry wc) ∷ ts) =
    let again = poll_recv_completion capacity (take_write capacity s wc) ts in
    if s.initialized && wc.is_write then again else (s, completion wc)

-- The turns without the writes, and the blocks that are written before the loop ends.
abbrev pub other_turns : List Turn → List Turn
other_turns [] = []
other_turns (turn true (entry wc) ∷ ts) =
    let rest = other_turns ts in if wc.is_write then rest else turn true (entry wc) ∷ rest
other_turns (t ∷ ts) = t ∷ other_turns ts

abbrev pub writes_seen : List Turn → List LogEvent
writes_seen [] = []
writes_seen (turn false polled ∷ ts) = []
writes_seen (turn true nothing ∷ ts) = writes_seen ts
writes_seen (turn true failure ∷ ts) = []
writes_seen (turn true (entry wc) ∷ ts) =
    let rest = writes_seen ts in if wc.is_write then written wc.imm_data ∷ rest else []

-- A round that asks for many entries: those that it gives, or a failure.
pub data Batch : Type 0 where
  broken : (running : Bool) → Batch
  batch : (running : Bool) (wcs : List Wc) → Batch

pub data BatchOutcome : Type 0 where
  returned failed polling : BatchOutcome

unfoldable pub poll_send_completions : ℕ → List Batch → List Wc × BatchOutcome
poll_send_completions zero ts = ([], returned)
poll_send_completions (suc n) [] = ([], polling)
poll_send_completions (suc n) (broken false ∷ ts) = ([], returned)
poll_send_completions (suc n) (broken true ∷ ts) = ([], failed)
poll_send_completions (suc n) (batch false wcs ∷ ts) = ([], returned)
poll_send_completions (suc n) (batch true wcs ∷ ts) =
    let (rest, outcome) = poll_send_completions (suc n - length wcs) ts in (wcs ++ rest, outcome)

-- The socket runs, no poll fails or gives more than it is asked for, and `n` entries come in all.
abbrev pub AllGiven : ℕ → List Batch → Type 0
AllGiven n [] = n ≡ 0
AllGiven n (broken running ∷ ts) = ⊥
AllGiven n (batch running wcs ∷ ts) =
    (running ≡ true) × (length wcs ≤ n) × AllGiven (n - length wcs) ts

abbrev pub entries : List Batch → List Wc
entries [] = []
entries (broken running ∷ ts) = entries ts
entries (batch running wcs ∷ ts) = wcs ++ entries ts

none_left : (ts : List Batch) → AllGiven 0 ts → entries ts ≡ []
none_left [] h = refl
none_left (broken running ∷ ts) h = elim h [ ]
none_left (batch running [] ∷ ts) h = none_left ts h.2
none_left (batch running (wc ∷ wcs) ∷ ts) h = absurd (omega (arith, h.1))

-- Where the entries that are asked for come, in batches of any sizes with any number of empty polls
-- between them, the loop ends and gives just these entries in their order.
pub poll_send_completions_total :
    (n : ℕ) (ts : List Batch)
    → AllGiven n ts
    → (poll_send_completions n ts ≡ (entries ts, returned)) × (length (entries ts) ≡ n)
unfolding poll_send_completions
poll_send_completions_total zero ts h = rw (none_left ts h) (refl, refl)
poll_send_completions_total (suc n) [] h = absurd (omega (arith, h))
poll_send_completions_total (suc n) (broken running ∷ ts) h = elim h [ ]
poll_send_completions_total (suc n) (batch false wcs ∷ ts) h = cc (h.0)
poll_send_completions_total (suc n) (batch true wcs ∷ ts) h =
    let rest = poll_send_completions_total (suc n - length wcs) ts h.2 in
    (rw rest.0 refl, omega (arith, length-append wcs (entries ts), rest.1, h.1))
