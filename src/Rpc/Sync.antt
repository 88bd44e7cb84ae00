-- ===== src/Rpc/Sync.antt =====
-- `syncAmongPeers` on the `n` nodes of a cluster, interleaved in any order. A node goes through the nodes
-- below it, sends each a request and waits for its response, and then through those above it, waits for
-- the request of each and responds. A receive completes only for the node that it was posted for; the
-- connections are reliable. `rdmaListen`, which the constructor has started, polls the same queue, and the
-- completion of a message goes to whichever of the two polls it.
use undergraduate_project.Shared.{
  ℕ, suc, ◌<◌, ◌≤◌, ◌≡◌, ◌≢◌, ◌==◌, if◌then◌else◌, Bool, true, false, update,
}

-- The loop variable, and whether the request to that node is sent. The value of the node's own id is
-- skipped: it is the end of the first loop, and the second starts after it.
pub record Node : Type 0 where
  pub partner : ℕ
  pub awaiting : Bool

-- What is on its way from one node to another.
pub data Mail : Type 0 where
  empty sync_request sync_response : Mail

pub record Net : Type 0 where
  pub node : ℕ → Node
  pub mail : ℕ → ℕ → Mail
  -- the messages that the listeners took
  pub taken : ℕ

unfoldable pub next : ℕ → ℕ → ℕ
next my_id i = if suc i == my_id then suc my_id else suc i

unfoldable pub put : (ℕ → ℕ → Mail) → ℕ → ℕ → Mail → ℕ → ℕ → Mail
put mail a b m = update mail a (update (mail a) b m)

unfoldable pub start : Net
start = record {
  node = λ my_id. record { partner = if my_id == 0 then 1 else 0; awaiting = false };
  mail = λ a b. empty;
  taken = 0;
}

-- Lines 78 to 82, 83 to 86 and 90 to 98 for the node `my_id` and its partner `i`.
unfoldable pub send_request : Net → ℕ → ℕ → Net
unfolding put
send_request s my_id i = record s {
  node = update s.node my_id (record { partner = i; awaiting = true });
  mail = put s.mail my_id i sync_request;
}

unfoldable pub take_response : Net → ℕ → ℕ → Net
unfolding put next
take_response s my_id i = record s {
  node = update s.node my_id (record { partner = next my_id i; awaiting = false });
  mail = put s.mail i my_id empty;
}

unfoldable pub respond : Net → ℕ → ℕ → Net
unfolding put
respond s my_id i = record s {
  node = update s.node my_id (record { partner = suc i; awaiting = false });
  mail = put (put s.mail i my_id empty) my_id i sync_response;
}

-- A turn of the listener of the node `my_id` with a message of the node `i`.
unfoldable pub listen : Net → ℕ → ℕ → Net
unfolding put
listen s my_id i = record s { mail = put s.mail i my_id empty; taken = suc s.taken }

pub data Step (n : ℕ) (s : Net) : Net → Type 0 where
  sent :
      (my_id i : ℕ)
      → my_id < n
      → (s.node my_id).partner ≡ i
      → (s.node my_id).awaiting ≡ false
      → i < my_id
      → Step n s (send_request s my_id i)
  resumed :
      (my_id i : ℕ)
      → my_id < n
      → (s.node my_id).partner ≡ i
      → (s.node my_id).awaiting ≡ true
      → s.mail i my_id ≡ sync_response
      → Step n s (take_response s my_id i)
  responded :
      (my_id i : ℕ)
      → my_id < n
      → (s.node my_id).partner ≡ i
      → my_id < i
      → i < n
      → s.mail i my_id ≡ sync_request
      → Step n s (respond s my_id i)

-- A run with `k` steps of `syncAmongPeers`, and any turns of the listeners in between.
pub data Run (n : ℕ) (s : Net) : ℕ → Net → Type 0 where
  here : Run n s 0 s
  later : {k : ℕ} {t u : Net} → Run n s k t → Step n t u → Run n s (suc k) u
  listened :
      {k : ℕ} {t : Net} (my_id i : ℕ)
      → Run n s k t
      → my_id < n
      → t.mail i my_id ≢ empty
      → Run n s k (listen t my_id i)

-- The node has left both loops.
abbrev pub IsDone : ℕ → Net → ℕ → Type 0
IsDone n s my_id = (n ≤ (s.node my_id).partner)
