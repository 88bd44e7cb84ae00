-- ===== src/Ecal/Refinement.antt =====
-- The layer as an array of pages: every sequence of writes, with nodes that come and go, and a read.
use undergraduate_project.Shared.{
  ℕ, ◌<◌, ◌^◌, ◌≡◌, sym, ap, ◌∙◌, ◌≢◌, arith, ◌==◌, Bool, true, false, ◌||◌, some, List, [], ◌∷◌,
  Bool-cases, inl, inr, update,
}
use undergraduate_project.Ecal.Code.{IsaL}
use undergraduate_project.Ecal.Layout.{
  group_size, get_data_pos, get_shift, cluster_capacity, get_shift-ne,
}
use undergraduate_project.Ecal.Blocks.{Memory, store, write_to, write_block}
use undergraduate_project.Ecal.Recovery.{block_of, written}

module _ (isa : IsaL) where
  -- A write of the page `index` with two blocks of data, by the node `writer`, when `alive` says which
  -- other nodes are.
  pub record Write : Type 0 where
    pub index : ℕ
    pub first : isa.Block
    pub second : isa.Block
    pub writer : ℕ
    pub alive : ℕ → Bool

  abbrev pub write_page : Memory isa → Write → Memory isa
  write_page mem w =
      write_block isa group_size w.alive w.writer mem
        (record { page = w.first ∷ w.second ∷ []; index = w.index })

  abbrev pub run_writes : Memory isa → List Write → Memory isa
  run_writes mem [] = mem
  run_writes mem (w ∷ ws) = run_writes (write_page mem w) ws

  -- The abstract array.
  abbrev pub Array : Type 0
  Array = ℕ → isa.Block × isa.Block

  abbrev pub array_writes : Array → List Write → Array
  array_writes pages [] = pages
  array_writes pages (w ∷ ws) = array_writes (update pages w.index (w.first, w.second)) ws

  -- Every node of `up` holds its blocks of all pages below the capacity.
  abbrev pub Represents : (up : ℕ → Bool) (capacity : ℕ) → Memory isa → Array → Type 0
  Represents up capacity mem pages =
      (index n : ℕ)
      → index < capacity
      → n < group_size
      → up n ≡ true
      → mem n (get_shift (get_data_pos group_size index).row)
        ≡ block_of isa (pages index).0 (pages index).1 n

  -- The writes stay below the capacity, and every node of `up` is alive or is the writer.
  abbrev pub AllReach : (up : ℕ → Bool) (capacity : ℕ) → List Write → Type 0
  AllReach up capacity [] = Unit
  AllReach up capacity (w ∷ ws) =
      ((w.index < capacity)
        × ((n : ℕ) → n < group_size → up n ≡ true → (n == w.writer || w.alive n) ≡ true))
      × AllReach up capacity ws

  -- A write leaves every other place of the memories alone.
  write_to_aside :
      (alive : ℕ → Bool) (my_id : ℕ) (mem : Memory isa) (node shift : ℕ) (blk : isa.Block) (n s : ℕ)
      → (s == shift) ≡ false
      → write_to isa alive my_id mem node shift blk n s ≡ mem n s
  unfolding write_to store
  write_to_aside alive my_id mem node shift blk n s h = ground arith

  write_block_aside :
      (size : ℕ) (alive : ℕ → Bool) (my_id : ℕ) (mem : Memory isa) (b c : isa.Block) (index n s : ℕ)
      → s ≢ get_shift (get_data_pos size index).row
      → write_block isa size alive my_id mem (record { page = b ∷ c ∷ []; index = index }) n s
        ≡ mem n s
  unfolding write_block get_data_pos
  write_block_aside size alive my_id mem b c index n s ne =
      let shift = get_shift (get_data_pos size index).row in
      let aside : (s == shift) ≡ false = ground arith in
      write_to_aside alive my_id _ 2 shift _ n s aside
      ∙ write_to_aside alive my_id _ 1 shift c n s aside
      ∙ write_to_aside alive my_id mem 0 shift b n s aside

  module _ (area_size capacity : ℕ) (up : ℕ → Bool)
      (sized : cluster_capacity group_size area_size ≡ some capacity)
      (small : area_size < 2 ^ 64) where
    pub write-Represents :
        (mem : Memory isa) (pages : Array) (w : Write)
        → w.index < capacity
        → ((n : ℕ) → n < group_size → up n ≡ true → (n == w.writer || w.alive n) ≡ true)
        → Represents up capacity mem pages
        → Represents up capacity (write_page mem w) (update pages w.index (w.first, w.second))
    write-Represents mem pages w inside reached held index n below node is_up =
        let mem' =
          write_block isa group_size w.alive w.writer mem
            (record { page = w.first ∷ w.second ∷ []; index = w.index }) in
        let place : ℕ → ℕ = λ i. get_shift (get_data_pos group_size i).row in
        let show : isa.Block × isa.Block → isa.Block = λ u. block_of isa u.0 u.1 n in
        elim (Bool-cases (index == w.index)) [
          | inl same ↦
              let at : index ≡ w.index = ground arith in
              let new : update pages w.index (w.first, w.second) index ≡ (w.first, w.second) =
                ground arith in
              ap (λ i. mem' n (place i)) at
              ∙ written isa group_size w.alive w.writer mem w.first w.second w.index n node
                  (reached n node is_up)
              ∙ sym (ap show new)
          | inr other ↦
              let apart : index ≢ w.index = ground arith in
              let old : update pages w.index (w.first, w.second) index ≡ pages index =
                ground arith in
              write_block_aside group_size w.alive w.writer mem w.first w.second w.index n
                (place index)
                (get_shift-ne area_size capacity index w.index sized small below inside apart)
              ∙ held index n below node is_up
              ∙ sym (ap show old)
        ]
