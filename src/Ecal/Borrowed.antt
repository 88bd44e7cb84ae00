-- ===== src/Ecal/Borrowed.antt =====
-- `readBlock` and `writeBlock` through the regions of the socket do what they do on the memories alone, and
-- give back what they borrow.
use undergraduate_project.Shared.{
  ℕ, ◌+◌, ◌≡◌, refl, ◌∙◌, arith, ◌==◌, Bool, some, List, [], ◌∷◌, Bool-cases, inl, inr,
}
use undergraduate_project.Ecal.Code.{IsaL}
use undergraduate_project.Ecal.Blocks.{Memory, Page, node_of, write_to, write_loop, write_block}
use undergraduate_project.Ecal.Transfers.{Regions, put, send_block, send_loop, write_through}
use undergraduate_project.Ecal.Lending.{HasRoom, lent_addr, taken, take_there, give_back}

module _ (isa : IsaL) (base : ℕ → ℕ) where
  -- One block, and a list of them.
  send_block-is :
      (alive : ℕ → Bool) (my_id : ℕ) (mem : Memory isa) (s : Regions isa) (peer_id shift : ℕ)
      (blk : isa.Block)
      → HasRoom s.word
      → (t : Regions isa) × (send_block isa base alive my_id mem s peer_id shift blk
          ≡ some (write_to isa alive my_id mem peer_id shift blk, t))
        × ((peer : ℕ) → t.word peer ≡ s.word peer)
  unfolding send_block write_to
  send_block-is alive my_id mem s peer_id shift blk room = elim (Bool-cases (peer_id == my_id)) [
    | inl own ↦ (s, rw own refl, λ peer. refl)
    | inr other ↦ elim (Bool-cases (alive peer_id)) [
      | inr dead ↦ (s, rw (other, dead) refl, λ peer. refl)
      | inl live ↦
          let filled =
            put isa (taken isa base s peer_id) peer_id (lent_addr isa base s peer_id) blk in
          let back =
            give_back isa base filled peer_id (s.word peer_id) (ground arith) (room peer_id).0
              (room peer_id).1 in
          (
            back.0,
            rw (other, live, take_there isa base s peer_id (room peer_id).0, back.1) (ground arith),
            λ peer. elim (Bool-cases (peer == peer_id)) [
              | inl same ↦ (let e : peer ≡ peer_id = ground arith in rw e back.2)
              | inr ne ↦ back.3 peer ne ∙ ground arith
            ],
          )
    ]
  ]

  send_loop-is :
      (alive : ℕ → Bool) (my_id start shift : ℕ) (mem : Memory isa) (s : Regions isa) (i : ℕ)
      (blocks : List isa.Block)
      → HasRoom s.word
      → (t : Regions isa) × (send_loop isa base alive my_id start shift mem s i blocks
          ≡ some (write_loop isa alive my_id start shift mem i blocks, t))
        × ((peer : ℕ) → t.word peer ≡ s.word peer)
  unfolding send_loop write_loop
  send_loop-is alive my_id start shift mem s i [] room = (s, refl, λ peer. refl)
  send_loop-is alive my_id start shift mem s i (blk ∷ rest) room =
      let first = send_block-is alive my_id mem s (node_of isa start i) shift blk room in
      let mem' = write_to isa alive my_id mem (node_of isa start i) shift blk in
      let room' : HasRoom first.0.word = λ peer. rw (first.2 peer) (room peer) in
      let later = send_loop-is alive my_id start shift mem' first.0 (i + 1) rest room' in
      (later.0, rw (first.1, later.1) refl, λ peer. later.2 peer ∙ first.2 peer)

  -- Let every peer have a free region. Then a write through the regions ends with the memories that a write without
  -- them leaves, and leaves the bitmap of every peer as it was.
  pub write_gives_back :
      (size : ℕ) (alive : ℕ → Bool) (my_id : ℕ) (mem : Memory isa) (s : Regions isa)
      (page : Page isa)
      → HasRoom s.word
      → (t : Regions isa) × (write_through isa base size alive my_id mem s page
          ≡ some (write_block isa size alive my_id mem page, t))
        × ((peer : ℕ) → t.word peer ≡ s.word peer)
  unfolding write_through write_block
  write_gives_back size alive my_id mem s page room = send_loop-is alive my_id _ _ mem s 0 _ room
