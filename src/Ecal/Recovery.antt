-- ===== src/Ecal/Recovery.antt =====
-- `readBlock` on the memories that `writeBlock` leaves, from the laws of the code.
use undergraduate_project.Shared.{
  ℕ, zero, suc, ◌<◌, ◌≡◌, refl, sym, ◌∙◌, arith, ◌==◌, if◌then◌else◌, Bool, true, false, ◌||◌, ◌&&◌,
  some, List, [], ◌∷◌, map, get_or, Bool-cases, inl, inr,
}
use undergraduate_project.Ecal.Code.{Row, IsaL, encode_data}
use undergraduate_project.Ecal.Layout.{data_blocks, group_size, get_data_pos, get_shift}
use undergraduate_project.Ecal.Blocks.{
  Memory, encode_row, store, write_to, write_block, copy_recovered, decode, read_block,
}

module _ (isa : IsaL) where
  -- The block of a page that node `n` of its group holds.
  abbrev pub block_of : isa.Block → isa.Block → ℕ → isa.Block
  block_of b c n =
      if n == 0 then b else if n == 1 then c else isa.combine (encode_row isa 2) (b ∷ c ∷ [])

  write_to_other :
      (alive : ℕ → Bool) (my_id : ℕ) (mem : Memory isa) (node shift : ℕ) (blk : isa.Block) (n s : ℕ)
      → (n == node) ≡ false
      → write_to isa alive my_id mem node shift blk n s ≡ mem n s
  unfolding write_to store
  write_to_other alive my_id mem node shift blk n s h = ground arith

  write_to_same :
      (alive : ℕ → Bool) (my_id : ℕ) (mem : Memory isa) (node shift : ℕ) (blk : isa.Block)
      → (node == my_id || alive node) ≡ true
      → write_to isa alive my_id mem node shift blk node shift ≡ blk
  unfolding write_to store
  write_to_same alive my_id mem node shift blk h = ground arith

  -- After a write, a node of the group that was alive, or is the writer, holds its block.
  pub written :
      (size : ℕ) (alive : ℕ → Bool) (my_id : ℕ) (mem : Memory isa) (b c : isa.Block) (index n : ℕ)
      → n < group_size
      → (n == my_id || alive n) ≡ true
      → write_block isa size alive my_id mem
          (record { page = b ∷ c ∷ []; index = index })
          n
          (get_shift (get_data_pos size index).row)
        ≡ block_of b c n
  unfolding write_block get_data_pos
  written size alive my_id mem b c index zero h w =
      let shift = get_shift (get_data_pos size index).row in
      write_to_other alive my_id _ 2 shift _ 0 shift refl
      ∙ write_to_other alive my_id _ 1 shift _ 0 shift refl
      ∙ write_to_same alive my_id mem 0 shift b w
  written size alive my_id mem b c index (suc zero) h w =
      let shift = get_shift (get_data_pos size index).row in
      write_to_other alive my_id _ 2 shift _ 1 shift refl ∙ write_to_same alive my_id _ 1 shift c w
  written size alive my_id mem b c index (suc (suc zero)) h w =
      write_to_same alive my_id _ 2 (get_shift (get_data_pos size index).row) _ w
  written size alive my_id mem b c index (suc (suc (suc n))) h w = absurd (omega arith)

  -- What the two entries of a list of inverse rows compute.
  entries :
      (f : Row → isa.Block) (inverse : List Row) (b c : isa.Block)
      → map f inverse ≡ b ∷ c ∷ []
      → (f (get_or inverse 0 []) ≡ b) × (f (get_or inverse 1 []) ≡ c)
  entries f [] b c e = absurd (ground arith)
  entries f (x ∷ []) b c e = absurd (ground arith)
  entries f (x ∷ y ∷ rest) b c e = (ground arith, ground arith)

  -- Any two rows of the code give back both data blocks.
  pub recovers :
      (p q : ℕ) (b c x y : isa.Block)
      → p < q
      → q < group_size
      → isa.combine (encode_row isa p) (b ∷ c ∷ []) ≡ x
      → isa.combine (encode_row isa q) (b ∷ c ∷ []) ≡ y
      → (inverse : List Row) × (isa.invert_matrix (encode_row isa p ∷ encode_row isa q ∷ []) 2
          ≡ some inverse)
        × (isa.combine (get_or inverse 0 []) (x ∷ y ∷ []) ≡ b)
        × (isa.combine (get_or inverse 1 []) (x ∷ y ∷ []) ≡ c)
  recovers p q b c x y h k ex ey =
      let found = isa.invert_cauchy (p ∷ q ∷ []) refl (h, tt) (omega arith, (k, tt)) in
      let undone = found.2 (b ∷ c ∷ []) refl in
      let parts = entries (λ row. isa.combine row _) found.0 b c undone in
      (found.0, found.1, rw (sym ex, sym ey) parts.0, rw (sym ex, sym ey) parts.1)

  -- Two live nodes of the three are enough.
  abbrev pub TwoAlive : (ℕ → Bool) → Type 0
  TwoAlive alive = (alive 0 && alive 1 || alive 0 && alive 2 || alive 1 && alive 2) ≡ true

  -- The row of a data block is the identity's.
  pub data_row :
      (b c : isa.Block)
      → (isa.combine (encode_row isa 0) (b ∷ c ∷ []) ≡ b)
        × (isa.combine (encode_row isa 1) (b ∷ c ∷ []) ≡ c)
  data_row b c = (
    isa.combine-cauchy_row 0 (b ∷ c ∷ []) b refl (omega arith) refl,
    isa.combine-cauchy_row 1 (b ∷ c ∷ []) c refl (omega arith) refl,
  )

  decoded :
      (page : List isa.Block) (decode_index err_index : List ℕ) (sources : List isa.Block)
      (inverse : List Row)
      → isa.invert_matrix (map (encode_row isa) decode_index) data_blocks ≡ some inverse
      → decode isa page decode_index err_index sources
        ≡ copy_recovered isa page err_index
            (encode_data isa (map (λ j. get_or inverse j []) err_index) sources)
  unfolding decode
  decoded page decode_index err_index sources inverse e = rw (decode, e)

  pub third :
      (alive : ℕ → Bool) → alive 0 ≡ true → alive 1 ≡ false → TwoAlive alive → alive 2 ≡ true
  third alive a0 d1 two = ground arith

  pub last_two :
      (alive : ℕ → Bool) → alive 0 ≡ false → TwoAlive alive → (alive 1 ≡ true) × (alive 2 ≡ true)
  last_two alive d0 two = (ground arith, ground arith)

  -- Reading from memories that hold a page's blocks wherever a node is alive.
  pub read_held :
      (size : ℕ) (alive : ℕ → Bool) (mem : Memory isa) (b c : isa.Block) (index : ℕ)
      → TwoAlive alive
      → ((n : ℕ)
          → n < group_size
          → alive n ≡ true
          → mem n (get_shift (get_data_pos size index).row) ≡ block_of b c n)
      → read_block isa size alive mem index ≡ some (record { page = b ∷ c ∷ []; index = index })
  unfolding read_block get_data_pos
  read_held size alive mem b c index two held = elim (Bool-cases (alive 0)) [
    | inl a0 ↦ elim (Bool-cases (alive 1)) [
      | inl a1 ↦ rw (a0, a1, held 0 (omega arith) a0, held 1 (omega arith) a1)
      | inr d1 ↦
          let a2 : alive 2 ≡ true = third alive a0 d1 two in
          let back = recovers 0 2 b c b _ (omega arith) (omega arith) (data_row b c).0 refl in
          rw (
            a0,
            d1,
            a2,
            held 0 (omega arith) a0,
            held 2 (omega arith) a2,
            decoded _ (0 ∷ 2 ∷ []) (1 ∷ []) _ back.0 back.1,
            copy_recovered,
            back.3,
          )
    ]
    | inr d0 ↦
        let others = last_two alive d0 two in
        let back = recovers 1 2 b c c _ (omega arith) (omega arith) (data_row b c).1 refl in
        rw (
          d0,
          others.0,
          others.1,
          held 1 (omega arith) others.0,
          held 2 (omega arith) others.1,
          decoded _ (1 ∷ 2 ∷ []) (0 ∷ []) _ back.0 back.1,
          copy_recovered,
          back.2,
        )
  ]

  -- A page that was written is read back, whichever node reads it and however often nodes were lost in
  -- between, if two nodes of its group are alive at that time, and each of those was alive at the time
  -- of the write or was the writer itself.
  pub read_after_write :
      (size : ℕ) (alive_w alive_r : ℕ → Bool) (my_id : ℕ) (mem : Memory isa) (b c : isa.Block)
      (index : ℕ)
      → TwoAlive alive_r
      → ((n : ℕ) → n < group_size → alive_r n ≡ true → (n == my_id || alive_w n) ≡ true)
      → read_block isa size alive_r
          (write_block isa size alive_w my_id mem (record { page = b ∷ c ∷ []; index = index }))
          index
        ≡ some (record { page = b ∷ c ∷ []; index = index })
  read_after_write size alive_w alive_r my_id mem b c index two took =
      read_held size alive_r _ b c index two
        (λ n h a. written size alive_w my_id mem b c index n h (took n h a))
