-- ===== src/Variants/Plain.antt =====
-- src/test/ecal_none.cpp: a page is at one of three nodes. A remote read takes its bytes from the buffer
-- without waiting for them, and a remote write posts `BlockTy::size` bytes, which are half of a page.
use undergraduate_project.Shared.{
  ℕ, ◌+◌, ◌*◌, ◌/◌, ◌%◌, ◌^◌, ◌≤◌, ◌<◌, ◌≡◌, ◌≢◌, ◌⊎◌, arith, inl, inr, ◌==◌, if◌then◌else◌, Bool,
  true, Option, none, some, List, [], ◌∷◌, take, Bool-cases,
}
use undergraduate_project.Config.Start.{Machine, Globals, Refusal, start_layer}
use undergraduate_project.Ecal.Layout.{group_size, data_blocks, block_bytes, pool_length, get_shift}
use undergraduate_project.Variants.Areas.{
  Area, put_all, get_two, get_two-put_all, get_two_aside, get_two-put_one, get_two_aside_one,
  page_place,
}

-- In pages; `none` where the constructor exits.
unfoldable pub capacity : ℕ → ℕ → Option ℕ
unfolding pool_length
capacity cluster_size area_size =
    if cluster_size % group_size == 0
    then some (cluster_size * (pool_length area_size / (4096 / block_bytes)))
    else none

-- The constructor.
unfoldable pub start : Machine → Globals → Refusal ⊎ (ℕ × Globals)
unfolding start_layer capacity
start m g = start_layer capacity m g

abbrev pub peer_of : ℕ → ℕ
peer_of index = index % group_size

abbrev pub place_of : ℕ → ℕ
place_of index = get_shift (index / group_size * data_blocks)

-- Two pages are at different nodes or in different rows.
places_apart :
    (limit i j : ℕ)
    → limit * 4096 < 2 ^ 64
    → i < limit
    → j < limit
    → i ≢ j
    → (peer_of j ≢ peer_of i)
      ⊎ (place_of j + 2 * block_bytes ≤ place_of i)
      ⊎ (place_of i + 2 * block_bytes ≤ place_of j)
places_apart limit i j small hi hj ne =
    ground (arith, page_place (i / 3) (omega arith), page_place (j / 3) (omega arith))

module _ {B : Type 0} where
  -- The write is posted and done later; this is the memory then.
  unfoldable pub write_block : ℕ → Area B → ℕ → List B → Area B
  unfolding put_all
  write_block my_id mem index page =
      if peer_of index == my_id
      then put_all mem (peer_of index) (place_of index) page
      else put_all mem (peer_of index) (place_of index) (take 1 page)

  -- `landed` says whether the read was done before the buffer `region` was copied.
  unfoldable pub read_block : ℕ → Bool → List B → Area B → ℕ → List B
  read_block my_id landed region mem index =
      if peer_of index == my_id
      then get_two mem (peer_of index) (place_of index)
      else if landed
      then get_two mem (peer_of index) (place_of index)
      else region

  -- What a page is after a write: the second half stays as it was at a remote node.
  abbrev pub page_after : ℕ → Area B → ℕ → B → B → List B
  page_after my_id mem index b c =
      b
      ∷ (if peer_of index == my_id then c else mem (peer_of index) (place_of index + block_bytes))
      ∷ []

  after_here :
      (my_id : ℕ) (mem : Area B) (index : ℕ) (b c : B)
      → get_two (write_block my_id mem index (b ∷ c ∷ [])) (peer_of index) (place_of index)
        ≡ page_after my_id mem index b c
  unfolding write_block
  after_here my_id mem index b c = elim (Bool-cases (peer_of index == my_id)) [
    | inl e ↦ rw (write_block, e) (get_two-put_all mem (peer_of index) (place_of index) b c)
    | inr e ↦ rw (write_block, e) (get_two-put_one mem (peer_of index) (place_of index) b)
  ]

  after_aside :
      (my_id : ℕ) (mem : Area B) (i j limit : ℕ) (b c : B)
      → limit * 4096 < 2 ^ 64
      → i < limit
      → j < limit
      → i ≢ j
      → get_two (write_block my_id mem i (b ∷ c ∷ [])) (peer_of j) (place_of j)
        ≡ get_two mem (peer_of j) (place_of j)
  unfolding write_block
  after_aside my_id mem i j limit b c small hi hj ne =
      let apart = places_apart limit i j small hi hj ne in
      elim (Bool-cases (peer_of i == my_id)) [
        | inl e ↦
            rw (write_block, e)
              (get_two_aside mem (peer_of i) (place_of i) (peer_of j) (place_of j) b c apart)
        | inr e ↦
            rw (write_block, e)
              (get_two_aside_one mem (peer_of i) (place_of i) (peer_of j) (place_of j) b apart)
      ]

  -- After a write of page `i` is done, a read of `j` by the same node that waits for its bytes gives: the
  -- page as it was, for another page; both halves of what was written, for a page of the node itself;
  -- and for a page of another node the first half of it and the second half that was there before.
  pub half_page_written :
      (my_id : ℕ) (region : List B) (mem : Area B) (i j limit : ℕ) (b c : B)
      → limit * 4096 < 2 ^ 64
      → i < limit
      → j < limit
      → read_block my_id true region (write_block my_id mem i (b ∷ c ∷ [])) j
        ≡ (if i == j then page_after my_id mem i b c else get_two mem (peer_of j) (place_of j))
  unfolding read_block
  half_page_written my_id region mem i j limit b c small hi hj = elim (Bool-cases (i == j)) [
    | inl e ↦
        let at : j ≡ i = ground arith in rw (e, at) (ground (arith, after_here my_id mem i b c))
    | inr e ↦ rw e (ground (arith, after_aside my_id mem i j limit b c small hi hj (ground arith)))
  ]
