-- ===== src/Rpc/Meeting.antt =====
-- How far two nodes are with each other, over every order of their steps, while no listener took a message.
use undergraduate_project.Shared.{ℕ, ◌≤◌, ◌<◌, ◌≡◌, refl, ◌≢◌, ◌⊎◌, inl, arith, true, false}
use undergraduate_project.Rpc.Sync.{
  empty, sync_request, sync_response, Net, next, put, start, send_request, take_response, respond,
  Step, sent, resumed, responded, Run, here, later, listened, listen,
}

-- The nodes `j < i` have not met, or `i` has asked, or `j` has answered, or they have met.
abbrev pub Phase : ℕ → ℕ → Net → Type 0
Phase j i s =
    (((s.node i).partner ≤ j)
      × ((s.node i).partner ≡ j → (s.node i).awaiting ≡ false)
      × ((s.node j).partner ≤ i)
      × (s.mail i j ≡ empty)
      × (s.mail j i ≡ empty))
    ⊎ (((s.node i).partner ≡ j)
        × ((s.node i).awaiting ≡ true)
        × ((s.node j).partner ≤ i)
        × (s.mail i j ≡ sync_request)
        × (s.mail j i ≡ empty))
    ⊎ (((s.node i).partner ≡ j)
        × ((s.node i).awaiting ≡ true)
        × (i < (s.node j).partner)
        × (s.mail i j ≡ empty)
        × (s.mail j i ≡ sync_response))
    ⊎ ((j < (s.node i).partner)
        × (i < (s.node j).partner)
        × (s.mail i j ≡ empty)
        × (s.mail j i ≡ empty))

pub record Inv (n : ℕ) (s : Net) : Type 0 where
  pub apart : (i : ℕ) → i < n → (s.node i).partner ≢ i
  pub below : (i : ℕ) → i < n → (s.node i).awaiting ≡ true → (s.node i).partner < i
  pub phase : s.taken ≡ 0 → (j i : ℕ) → j < i → i < n → Phase j i s

start-Inv : (n : ℕ) → Inv n start
unfolding start
start-Inv n = record {
  apart = λ i h. ground arith;
  below = λ i h e. ground arith;
  phase = λ none_taken j i h k. inl (ground arith, λ e. refl, ground arith, refl, refl);
}

module _ (n : ℕ) (s : Net) (inv : Inv n s) (my_id p : ℕ) (inside : my_id < n) where
  sent-Inv :
      (s.node my_id).partner ≡ p
      → (s.node my_id).awaiting ≡ false
      → p < my_id
      → Inv n (send_request s my_id p)
  unfolding send_request put
  sent-Inv at idle under = record {
    apart = λ i h. ground (arith, inv.apart i);
    below = λ i h e. ground (arith, inv.below i);
    phase = λ none_taken j i h k. ground (arith, inv.phase none_taken j i);
  }

  resumed-Inv :
      (s.node my_id).partner ≡ p
      → (s.node my_id).awaiting ≡ true
      → s.mail p my_id ≡ sync_response
      → Inv n (take_response s my_id p)
  unfolding take_response put next
  resumed-Inv at waiting answered = record {
    apart = λ i h. ground (arith, inv.apart i, inv.below my_id);
    below = λ i h e. ground (arith, inv.below i);
    phase = λ none_taken j i h k.
        ground (arith, inv.phase none_taken j i, inv.below my_id, inv.phase none_taken p my_id);
  }

  responded-Inv :
      (s.node my_id).partner ≡ p
      → my_id < p
      → p < n
      → s.mail p my_id ≡ sync_request
      → Inv n (respond s my_id p)
  unfolding respond put
  responded-Inv at above under asked = record {
    apart = λ i h. ground (arith, inv.apart i);
    below = λ i h e. ground (arith, inv.below i);
    phase = λ none_taken j i h k.
        ground (arith, inv.phase none_taken j i, inv.below my_id, inv.phase none_taken my_id p);
  }

Step-Inv : {n : ℕ} {s t : Net} → Step n s t → Inv n s → Inv n t
Step-Inv {n} {s} (sent me p h a b c) inv = sent-Inv n s inv me p h a b c
Step-Inv {n} {s} (resumed me p h a b c) inv = resumed-Inv n s inv me p h a b c
Step-Inv {n} {s} (responded me p h a b c d) inv = responded-Inv n s inv me p h a b c d

listen-Inv : {n : ℕ} (s : Net) (my_id i : ℕ) → Inv n s → Inv n (listen s my_id i)
unfolding listen
listen-Inv s my_id i inv = record {
  apart = inv.apart;
  below = inv.below;
  phase = λ none_taken. absurd (omega (arith, none_taken));
}

pub Run-Inv : {n k : ℕ} {t : Net} → Run n start k t → Inv n t
Run-Inv {n} here = start-Inv n
Run-Inv (later r st) = Step-Inv st (Run-Inv r)
Run-Inv (listened {t = t} my_id i r h m) = listen-Inv t my_id i (Run-Inv r)
