-- ===== src/Rpc/Progress.antt =====
-- The meeting of all nodes comes to its end.
use undergraduate_project.Shared.{
  ℕ, zero, suc, ◌+◌, ◌-◌, ◌*◌, ◌≤◌, ◌<◌, ◌≡◌, refl, ◌⊎◌, inl, inr, arith, ◌==◌, ltb, if◌then◌else◌,
  true, false, Bool-cases, sum_below, sum_below-update, sum_below-le,
}
use undergraduate_project.Rpc.Sync.{
  Node, sync_response, Net, next, start, send_request, take_response, respond, Step, sent, resumed,
  responded, Run, here, later, listened, listen, IsDone, empty, put,
}
use undergraduate_project.Rpc.Meeting.{Inv, Run-Inv}

-- What a node still has to do.
abbrev work : ℕ → Node → ℕ
work n v = 2 * (n - v.partner) + (if v.awaiting then 0 else 1)

abbrev pub work_left : ℕ → Net → ℕ
work_left n s = sum_below (work n) n s.node

Step-work : {n : ℕ} {s t : Net} → Inv n s → Step n s t → work_left n t + 1 ≤ work_left n s
unfolding send_request take_response respond next
Step-work {n} {s} inv (sent me p h a b c) =
    ground
      (arith, sum_below-update (work n) n me s.node (record { partner = p; awaiting = true }) h)
Step-work {n} {s} inv (resumed me p h a b c) = ground (
  arith,
  inv.below me,
  sum_below-update (work n) n me s.node (record { partner = next me p; awaiting = false }) h,
)
Step-work {n} {s} inv (responded me p h a b c d) =
    ground (
      arith,
      sum_below-update (work n) n me s.node (record { partner = suc p; awaiting = false }) h,
    )

-- The first node below `k` that is not done, if there is one.
first_open :
    (n k : ℕ) (s : Net)
    → ((j : ℕ) → j < k → IsDone n s j)
      ⊎ ((j : ℕ) × (j < k) × ((s.node j).partner < n) × ((i : ℕ) → i < j → IsDone n s i))
first_open n zero s = inl (λ j h. absurd (omega arith))
first_open n (suc k) s = elim (first_open n k s) [
  | inl all ↦ elim (Bool-cases (ltb (s.node k).partner n)) [
    | inl more ↦ inr (k, omega arith, ground arith, all)
    | inr done ↦ inl (λ j h. elim (Bool-cases (j == k)) [
      | inl same ↦ ground arith
      | inr other ↦ all j (ground arith)
    ])
  ]
  | inr (j, lt, more, done) ↦ inr (j, omega arith, more, done)
]

module _ (n : ℕ) (s : Net) (inv : Inv n s) (none_taken : s.taken ≡ 0) where
  -- A node that is still at a node that is done has its response.
  can_resume :
      (i : ℕ)
      → i < n
      → (s.node i).partner < i
      → IsDone n s (s.node i).partner
      → (t : Net) × Step n s t
  can_resume i h under done =
      let p = (s.node i).partner in
      let answered : ((s.node i).awaiting ≡ true) × (s.mail p i ≡ sync_response) =
        ground (arith, inv.phase none_taken p i under h) in
      (take_response s i p, resumed i p h refl answered.0 answered.1)

  -- The first node that is not done can go on, or the node that it waits for can.
  open_step :
      (j : ℕ)
      → j < n
      → (s.node j).partner < n
      → ((i : ℕ) → i < j → IsDone n s i)
      → (t : Net) × Step n s t
  open_step j h more done = elim (Bool-cases (ltb (s.node j).partner j)) [
    | inl client ↦ can_resume j h (ground arith) (done (s.node j).partner (ground arith))
    | inr server ↦
        let i = (s.node j).partner in
        let above : j < i = ground (arith, inv.apart j) in
        elim (inv.phase none_taken j i above more) [
          | inl (early, idle, le, none_out, none_back) ↦
              elim (Bool-cases (ltb (s.node i).partner j)) [
                | inl under ↦
                    can_resume i more (ground arith) (done (s.node i).partner (ground arith))
                | inr there ↦
                    let at : (s.node i).partner ≡ j = ground arith in
                    (send_request s i j, sent i j more at (idle at) above)
              ]
          | inr (inl (at, waiting, le, asked, none_back)) ↦
              (respond s j i, responded j i h refl above more asked)
          | inr (inr (inl (at, waiting, lt, none_out, back))) ↦ absurd (omega arith)
          | inr (inr (inr (lt, past, none_out, none_back))) ↦ absurd (omega arith)
        ]
  ]

  progress : ((i : ℕ) → i < n → IsDone n s i) ⊎ ((t : Net) × Step n s t)
  progress = elim (first_open n n s) [
    | inl all ↦ inl all
    | inr (j, h, more, done) ↦ inr (open_step j h more done)
  ]

Run-work : {n k : ℕ} {t : Net} → Run n start k t → k + work_left n t ≤ work_left n start
unfolding listen
Run-work here = omega arith
Run-work (later r st) = omega (arith, Run-work r, Step-work (Run-Inv r) st)
Run-work (listened my_id i r h m) = Run-work r

start_work : (n : ℕ) → work_left n start ≤ n * (2 * n + 1)
unfolding start
start_work n = sum_below-le (work n) n (2 * n + 1) _ (λ i h. ground arith)

-- From the start, in every order of the nodes and with the listeners in between: the nodes take at most
-- n * (2 * n + 1) steps, and as long as no listener has taken a message and a node has not been through both
-- of its loops, some node can take a step. So all nodes get through `syncAmongPeers`, however many they are,
-- unless a listener takes a message.
pub sync_comes_to_its_end :
    (n k : ℕ) (s : Net)
    → Run n start k s
    → (k ≤ n * (2 * n + 1))
      × ((0 < s.taken) ⊎ ((i : ℕ) → i < n → IsDone n s i) ⊎ ((t : Net) × Step n s t))
sync_comes_to_its_end n k s r = (
  omega (arith, Run-work r, start_work n),
  elim (Bool-cases (s.taken == 0)) [
    | inl untaken ↦ inr (progress n s (Run-Inv r) (ground arith))
    | inr some_taken ↦ inl (ground arith)
  ],
)

-- While no listener took a message: where a node has gone past a node below it, that node has gone past it
-- too, so no node leaves a meeting that the other one has not joined.
pub sync_is_mutual :
    (n k : ℕ) (s : Net)
    → Run n start k s
    → s.taken ≡ 0
    → (j i : ℕ) → j < i
    → i < n
    → j < (s.node i).partner
    → i < (s.node j).partner
sync_is_mutual n k s r untaken j i lt h through = ground (arith, (Run-Inv r).phase untaken j i lt h)

-- The node 1 has asked the node 0, whose listener took the request.
pub record IsStranded (s : Net) : Type 0 where
  pub asking : (s.node 1).partner ≡ 0
  pub waiting : (s.node 1).awaiting ≡ true
  pub serving : (s.node 0).partner ≡ 1
  pub nothing_there : s.mail 1 0 ≡ empty
  pub nothing_back : s.mail 0 1 ≡ empty

Step-IsStranded : {n : ℕ} {s t : Net} → Step n s t → IsStranded s → IsStranded t
unfolding send_request take_response respond put next
Step-IsStranded {n} {s} (sent me p h a b c) lost = ground (arith, lost)
Step-IsStranded {n} {s} (resumed me p h a b c) lost = ground (arith, lost)
Step-IsStranded {n} {s} (responded me p h a b c d) lost = ground (arith, lost)

Run-IsStranded : {n : ℕ} {s : Net} {k : ℕ} {t : Net} → Run n s k t → IsStranded s → IsStranded t
unfolding listen put
Run-IsStranded here lost = lost
Run-IsStranded (later r st) lost = Step-IsStranded st (Run-IsStranded r lost)
Run-IsStranded (listened {t = t} my_id i r h m) lost =
    let before = Run-IsStranded r lost in ground (arith, before)

-- In any cluster of two nodes or more: when the first step is that the node 1 asks the node 0, whose listener takes
-- the request, then in every order of what follows neither of the two gets through `syncAmongPeers`.
pub taken_request_strands :
    (n k : ℕ) (t : Net)
    → 2 ≤ n
    → Run n (listen (send_request start 1 0) 0 1) k t
    → ((t.node 0).partner < n) × ((t.node 1).partner < n)
unfolding listen send_request put start
taken_request_strands n k t two r =
    let lost = Run-IsStranded r (record {
      asking = refl;
      waiting = refl;
      serving = refl;
      nothing_there = refl;
      nothing_back = refl;
    }) in
    (omega (arith, two, lost.serving), omega (arith, two, lost.asking))
