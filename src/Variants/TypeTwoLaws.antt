-- ===== src/Variants/TypeTwoLaws.antt =====
-- What `ECAL2` gives back after a write, and pages that share a block.
use undergraduate_project.Shared.{
  ℕ, ◌+◌, ◌*◌, ◌/◌, ◌%◌, ◌<◌, ◌≡◌, ◌≢◌, refl, arith, ◌==◌, Bool, true, false, ◌||◌, if◌then◌else◌,
  Option, none, some, [], ◌∷◌, Bool-cases, inl, inr,
}
use undergraduate_project.Ecal.Code.{IsaL}
use undergraduate_project.Ecal.Layout.{group_size}
use undergraduate_project.Ecal.Blocks.{Memory, node_of, store, write_to}
use undergraduate_project.Ecal.Recovery.{TwoAlive, last_two}
use undergraduate_project.Variants.TypeTwo.{
  page_shift, get_block_position, choose, decode, read_block, write_block,
}

-- The first and the third page of each row are kept in the same block.
pub pages_share_block : (row : ℕ) → get_block_position (3 * row) ≡ get_block_position (3 * row + 2)
unfolding get_block_position
pages_share_block row =
    let same_row : (3 * row + 2) / 3 ≡ 3 * row / 3 = omega arith in
    let same_node : (3 * row + 2) % 2 ≡ 3 * row % 2 = omega arith in rw (same_row, same_node) refl

module _ (isa : IsaL) where
  -- The three nodes of a row are different.
  node_of-ne : (shift i j : ℕ) → i < 3 → j < 3 → i ≢ j → node_of isa shift i ≢ node_of isa shift j
  node_of-ne shift i j h k ne = λ e. ne (omega (arith, e))

  -- A write changes the parity of the row alone.
  data_stays :
      (alive : ℕ → Bool) (my_id : ℕ) (mem : Memory isa) (region : ℕ → isa.Block) (index j : ℕ)
      (page : isa.Block)
      → j < 2
      → let pos = get_block_position index in
        let node = node_of isa (pos.row % group_size) j in
        write_block isa alive my_id mem region index page node (page_shift pos.row)
        ≡ mem node (page_shift pos.row)
  unfolding write_block write_to store
  data_stays alive my_id mem region index j page h =
      let shift = (get_block_position index).row % group_size in
      let apart =
        node_of-ne shift j 2 (omega arith) (omega arith) (λ e. absurd (omega (arith, e))) in
      ground (arith, apart)

  -- Two rows have an inverse, so the unset source is used.
  decode_fails :
      (page : isa.Block) (j k : ℕ) → j < k → k < group_size → decode isa page (j ∷ k ∷ []) ≡ none
  unfolding decode
  decode_fails page j k h below =
      let found = isa.invert_cauchy (j ∷ k ∷ []) refl (h, tt) (omega arith, (below, tt)) in
      rw (decode, found.1) refl

  first_last :
      (live : ℕ → Bool) → live 1 ≡ false → TwoAlive isa live → (live 0 ≡ true) × (live 2 ≡ true)
  first_last live d1 two = (ground arith, ground arith)

  chosen_first :
      (live : ℕ → Bool) (shift : ℕ)
      → live (node_of isa shift 0) ≡ false
      → live (node_of isa shift 1) ≡ true
      → live (node_of isa shift 2) ≡ true
      → choose isa live shift 3 2 0 ≡ 1 ∷ 2 ∷ []
  unfolding choose
  chosen_first live shift d0 a1 a2 = rw (d0, a1, a2) refl

  chosen_second :
      (live : ℕ → Bool) (shift : ℕ)
      → live (node_of isa shift 0) ≡ true
      → live (node_of isa shift 1) ≡ false
      → live (node_of isa shift 2) ≡ true
      → choose isa live shift 3 2 0 ≡ 0 ∷ 2 ∷ []
  unfolding choose
  chosen_second live shift a0 d1 a2 = rw (a0, d1, a2) refl

  copied :
      (own filled : Bool) (there held : isa.Block)
      → (own || filled) ≡ true
      → ◌≡◌ {A = Option isa.Block}
          (some (if own then there else if filled then there else held))
          (some there)
  copied own filled there held done = ground (arith, done)

  -- Let two nodes of a row be alive, and let the read be by the page's node or its transfer be done when the region is
  -- copied. Whatever was to be written, and whatever the regions held when the parity was computed: a read of the
  -- page after the write gives what its block held before it, for the data of the page is never stored; and
  -- when the page's node is lost, the read uses a source that was not set.
  pub written_page_is_lost :
      (alive later : ℕ → Bool) (my_id reader : ℕ) (filled : Bool) (mem : Memory isa)
      (region : ℕ → isa.Block) (index : ℕ) (page held before : isa.Block)
      → let pos = get_block_position index in
        TwoAlive isa (λ j. later (node_of isa (pos.row % group_size) j))
        → (pos.node_id == reader || filled) ≡ true
        → read_block isa later reader filled
            (write_block isa alive my_id mem region index page)
            held
            index
            before
          ≡ (if later pos.node_id then some (mem pos.node_id (page_shift pos.row)) else none)
  unfolding read_block get_block_position
  written_page_is_lost alive later my_id reader filled mem region index page held before two done =
      let row = index / 3 in
      let shift = row % 3 in
      let live : ℕ → Bool = λ j. later (node_of isa shift j) in
      let held0 = data_stays alive my_id mem region index 0 page (omega arith) in
      let held1 = data_stays alive my_id mem region index 1 page (omega arith) in
      elim (Bool-cases (index % 2 == 0)) [
        | inl even ↦
            let o : index % 2 ≡ 0 = ground arith in
            elim (Bool-cases (live 0)) [
              | inl a0 ↦
                  rw (o, a0, held0)
                    (copied (node_of isa shift 0 == reader) filled _ held (rw o at done))
              | inr d0 ↦
                  let others = last_two isa live d0 two in
                  rw (o, d0, chosen_first later shift d0 others.0 others.1)
                    (decode_fails before 1 2 (omega arith) (omega arith))
            ]
        | inr odd ↦
            let o : index % 2 ≡ 1 = ground arith in
            elim (Bool-cases (live 1)) [
              | inl a1 ↦
                  rw (o, a1, held1)
                    (copied (node_of isa shift 1 == reader) filled _ held (rw o at done))
              | inr d1 ↦
                  let others = first_last live d1 two in
                  rw (o, d1, chosen_second later shift others.0 d1 others.1)
                    (decode_fails before 0 2 (omega arith) (omega arith))
            ]
      ]
