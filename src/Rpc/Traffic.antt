-- ===== src/Rpc/Traffic.antt =====
-- Every order of the turns of the two listeners and of the calling threads, and what it means that a
-- queue keeps the messages of a kind.
use undergraduate_project.Shared.{
  ℕ, ◌≤◌, ◌<◌, ◌≡◌, refl, sym, ap, ◌∙◌, arith, if◌then◌else◌, Bool, true, false, ◌&&◌, not, List,
  [], ◌∷◌, ◌++◌, length, length-append, some, update,
}
use undergraduate_project.Rdma.Completions.{Wc}
use undergraduate_project.Rpc.Message.{MessageType, Message, ReqBuf, is_call, is_response}
use undergraduate_project.Rpc.Interface.{
  Interface, capacity, received, deliver, answer, call_send, call_receive,
}

-- The interface, with the messages that `rdmaListen` has taken up and those that each thread has taken. It takes
-- up what stands in the buffer that a completion names, whichever message that is.
pub record Traffic : Type 0 where
  pub iface : Interface
  pub taken_up : List ReqBuf
  pub served : List ReqBuf
  pub answered : List ReqBuf
  pub special : List ReqBuf

-- A message lands in a buffer; `rdmaListen` takes a completion; `rpcListen` pops a request and answers it;
-- a thread sends a call; and one gets what it waits for.
pub data Step (size : ℕ) (s : Traffic) : Traffic → Type 0 where
  landed :
      (peer_id : ℕ) (m : Message)
      → Step size s (record s {
        iface = record (s.iface) { recv_region = update s.iface.recv_region peer_id m };
      })
  arrival :
      (wc : Wc) {t : Interface}
      → deliver size s.iface wc ≡ some t
      → Step size s (record s { iface = t; taken_up = s.taken_up ++ received s.iface wc ∷ [] })
  service :
      (b : ReqBuf) (rest : List ReqBuf)
      → s.iface.rq ≡ b ∷ rest
      → Step size s (record s {
        iface = answer size (record (s.iface) { rq = rest }) b;
        served = s.served ++ b ∷ [];
      })
  sending :
      (peer_id : ℕ) (request : Message)
      → Step size s (record s { iface = call_send size s.iface peer_id request })
  reply :
      (request : Message) (b : ReqBuf) {t : Interface}
      → is_call request.type ≡ true
      → call_receive s.iface request ≡ some (t, b)
      → Step size s (record s { iface = t; answered = s.answered ++ b ∷ [] })
  special_reply :
      (request : Message) (b : ReqBuf) {t : Interface}
      → is_call request.type ≡ false
      → call_receive s.iface request ≡ some (t, b)
      → Step size s (record s { iface = t; special = s.special ++ b ∷ [] })

pub data Reach (size : ℕ) (s : Traffic) : Traffic → Type 0 where
  here : Reach size s s
  later : {t u : Traffic} → Reach size s t → Step size t u → Reach size s u

-- The messages of a kind, in their order.
abbrev pub of_kind : (MessageType → Bool) → List ReqBuf → List ReqBuf
of_kind test [] = []
of_kind test (b ∷ bs) = let rest = of_kind test bs in if test b.msg.type then b ∷ rest else rest

abbrev pub is_special : MessageType → Bool
is_special t = not (is_call t) && not (is_response t)

-- What was taken from a queue and what is in it are the messages of its kind, in their order.
abbrev pub IsKept : (MessageType → Bool) → List ReqBuf → List ReqBuf → List ReqBuf → Type 0
IsKept test taken q taken_up = (taken ++ q ≡ of_kind test taken_up) × (length q ≤ capacity)

of_kind-append :
    (test : MessageType → Bool) (xs : List ReqBuf) (b : ReqBuf)
    → of_kind test (xs ++ b ∷ []) ≡ of_kind test xs ++ of_kind test (b ∷ [])
of_kind-append test [] b = ground arith
of_kind-append test (x ∷ xs) b = ground (arith, of_kind-append test xs b)

append_assoc : (xs ys zs : List ReqBuf) → (xs ++ ys) ++ zs ≡ xs ++ (ys ++ zs)
append_assoc [] ys zs = refl
append_assoc (x ∷ xs) ys zs = ap (◌∷◌ x) (append_assoc xs ys zs)

append-nil : (xs : List ReqBuf) → xs ++ [] ≡ xs
append-nil [] = refl
append-nil (x ∷ xs) = ap (◌∷◌ x) (append-nil xs)

module _ (test : MessageType → Bool) (taken q taken_up : List ReqBuf) (b : ReqBuf) where
  pub push-IsKept :
      test b.msg.type ≡ true
      → length q < capacity
      → IsKept test taken q taken_up
      → IsKept test taken (q ++ b ∷ []) (taken_up ++ b ∷ [])
  push-IsKept kind room kept = (
    sym (append_assoc taken q (b ∷ []))
        ∙ ap (λ xs. xs ++ b ∷ []) kept.0
        ∙ sym (of_kind-append test taken_up b ∙ rw kind refl),
    omega (arith, length-append q (b ∷ []), room),
  )

  pub other-IsKept :
      test b.msg.type ≡ false
      → IsKept test taken q taken_up
      → IsKept test taken q (taken_up ++ b ∷ [])
  other-IsKept kind kept = (
    kept.0 ∙ sym (of_kind-append test taken_up b ∙ rw kind (append-nil (of_kind test taken_up))),
    kept.1,
  )

  pub pop-IsKept : IsKept test taken (b ∷ q) taken_up → IsKept test (taken ++ b ∷ []) q taken_up
  pop-IsKept kept = (append_assoc taken (b ∷ []) q ∙ kept.0, omega (arith, kept.1))
