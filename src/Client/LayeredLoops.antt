-- ===== src/Client/LayeredLoops.antt =====
-- The loops of the client on the erasure-coded layer do what they do on an array of pages.
use undergraduate_project.Shared.{
  ℕ, zero, suc, ◌+◌, ◌-◌, ◌/◌, ◌%◌, ◌≤◌, ◌<◌, ◌^◌, ◌≡◌, refl, sym, ap, ◌∙◌, arith, ◌==◌, ltb, Bool,
  true, not, ◌||◌, some, ◌>>=◌, List, [], ◌∷◌, take, drop, length, length-drop, Bool-cases,
  Option-cases, inl, inr,
}
use undergraduate_project.Ecal.Code.{IsaL, BlockBytes, AllBelow}
use undergraduate_project.Ecal.Layout.{group_size, cluster_capacity}
use undergraduate_project.Ecal.Blocks.{Memory}
use undergraduate_project.Ecal.Recovery.{TwoAlive}
use undergraduate_project.Ecal.Refinement.{Array, Represents}
use undergraduate_project.Client.Transfer.{
  page_size, ClientPage, read_block, write_block, block_len, write_turn, write_loop, read_loop,
}
use undergraduate_project.Client.TransferLaws.{length-take, block_len_bounds}
use undergraduate_project.Client.Bytes.{length-memcpy}
use undergraduate_project.Client.Layered.{layer_write, layered_turn, layered_write, layered_read}
use undergraduate_project.Client.LayeredPages.{
  AllBelow-take, AllBelow-drop, AllBelow-memcpy, as_pages, length-as_pages, as_pages-AllBelow,
  IsWhole, layer_read-held, with_page, layer_write-held,
}

module _ (isa : IsaL) (view : BlockBytes isa) (area_size capacity : ℕ) (up : ℕ → Bool)
    (sized : cluster_capacity group_size area_size ≡ some capacity) (small : area_size < 2 ^ 64)
    (block_no : ℕ → ℕ) (placed : (b : ℕ) → block_no b < capacity) (block_size : ℕ)
    (positive : 0 < block_size) (fits : block_size ≤ page_size) where
  -- What a turn fills is a page that the layer can take.
  turn-IsWhole :
      (pages : Array isa) (page : ClientPage) (offset : ℕ) (buf : List ℕ)
      → 0 < length buf
      → IsWhole isa view capacity page
      → AllBelow 256 buf
      → IsWhole isa view capacity
          (write_turn block_no block_size (as_pages isa view pages) page offset buf).1
  unfolding write_turn read_block
  turn-IsWhole pages page offset buf some_bytes whole bytes =
      let block_off = offset % block_size in
      let count = block_len block_size offset (length buf) in
      let bounds = block_len_bounds block_size offset (length buf) positive some_bytes in
      let blkno = block_no (offset / block_size) in
      let content = as_pages isa view pages blkno in
      let full = length-as_pages isa view pages blkno in
      let part = take count buf in
      let part_len = length-take count buf (omega (arith, bounds)) in
      let part_bytes = AllBelow-take 256 count buf bytes in
      elim (Bool-cases (not (block_off == 0) || ltb (block_off + count) page_size)) [
        | inl e ↦ rw e (
          placed (offset / block_size),
          length-memcpy content block_off part (omega (arith, bounds, part_len, full)) ∙ full,
          AllBelow-memcpy 256 content block_off part (as_pages-AllBelow isa view pages blkno)
              part_bytes,
        )
        | inr e ↦ rw e (
          whole.0,
          length-memcpy page.content 0 part (omega (arith, bounds, part_len, whole.1)) ∙ whole.1,
          AllBelow-memcpy 256 page.content 0 part whole.2 part_bytes,
        )
      ]

  turn_stores :
      (pages : Array isa) (page : ClientPage) (offset : ℕ) (buf : List ℕ)
      → let t = write_turn block_no block_size (as_pages isa view pages) page offset buf in
        write_block (as_pages isa view pages) t.1 ≡ t.0
  unfolding write_turn
  turn_stores pages page offset buf = refl

  module _ (alive : ℕ → Bool) (two : TwoAlive isa alive)
      (live : (n : ℕ) → n < group_size → alive n ≡ true → up n ≡ true) where
    -- A turn of the loop of `write`.
    layered_turn-runs :
        (my_id : ℕ) (mem : Memory isa) (pages : Array isa) (page : ClientPage) (offset : ℕ)
        (buf : List ℕ)
        → Represents isa up capacity mem pages
        → let t = write_turn block_no block_size (as_pages isa view pages) page offset buf in
          layered_turn isa view block_no block_size alive my_id mem page offset buf
          ≡ some (layer_write isa view alive my_id mem t.1, t.1)
    unfolding layered_turn write_turn read_block
    layered_turn-runs my_id mem pages page offset buf held =
        let count = block_len block_size offset (length buf) in
        let blkno = block_no (offset / block_size) in
        let got =
          layer_read-held isa view area_size capacity up sized small alive mem pages blkno held two
            live (placed (offset / block_size)) in
        elim (Bool-cases
          (not (offset % block_size == 0) || ltb (offset % block_size + count) page_size)) [
            | inl e ↦ rw (layered_turn, e, got, ◌>>=◌) refl
            | inr e ↦ rw (layered_turn, e, ◌>>=◌) refl
          ]

    -- The loop of `read`.
    pub layered_read-is :
        (fuel : ℕ) (mem : Memory isa) (pages : Array isa) (offset len : ℕ)
        → Represents isa up capacity mem pages
        → layered_read isa view block_no block_size fuel alive mem offset len
          ≡ read_loop block_no block_size fuel (as_pages isa view pages) offset len
    unfolding layered_read read_loop
    layered_read-is fuel mem pages offset zero held = refl
    layered_read-is zero mem pages offset (suc len) held = refl
    layered_read-is (suc fuel) mem pages offset (suc len) held =
        let count = block_len block_size offset (suc len) in
        let blkno = block_no (offset / block_size) in
        let got =
          layer_read-held isa view area_size capacity up sized small alive mem pages blkno held two
            live (placed (offset / block_size)) in
        let rest = layered_read-is fuel mem pages (offset + count) (suc len - count) held in
        rw (layered_read, got, rest, ◌>>=◌)
          (elim (Option-cases (
            read_loop block_no block_size fuel (as_pages isa view pages) (offset + count)
              (suc len - count))) [
                | inl e ↦ rw (e, ◌>>=◌, read_loop) refl
                | inr (bytes, e) ↦ rw (e, ◌>>=◌, read_loop) refl
              ])

    -- The loop of `write`.
    pub layered_write-is :
        (fuel my_id : ℕ) (mem : Memory isa) (pages : Array isa) (page : ClientPage) (offset : ℕ)
        (buf : List ℕ)
        → ((n : ℕ) → n < group_size → up n ≡ true → (n == my_id || alive n) ≡ true)
        → Represents isa up capacity mem pages
        → IsWhole isa view capacity page
        → AllBelow 256 buf
        → length buf ≤ fuel
        → (mem' : Memory isa) × (pages' : Array isa) × (layered_write isa view block_no block_size
              fuel alive my_id mem page offset buf
            ≡ some mem')
          × (write_loop block_no block_size fuel (as_pages isa view pages) page offset buf
              ≡ some (as_pages isa view pages'))
          × Represents isa up capacity mem' pages'
    unfolding layered_write write_loop
    layered_write-is fuel my_id mem pages page offset [] reached held whole bytes enough =
        (mem, pages, refl, refl, held)
    layered_write-is zero my_id mem pages page offset (b ∷ buf) reached held whole bytes enough =
        absurd (omega arith)
    layered_write-is (suc fuel) my_id mem pages page offset (b ∷ buf) reached held whole bytes
          enough =
        let all = b ∷ buf in
        let count = block_len block_size offset (length all) in
        let bounds = block_len_bounds block_size offset (length all) positive (omega arith) in
        let t = write_turn block_no block_size (as_pages isa view pages) page offset all in
        let filled = turn-IsWhole pages page offset all (omega arith) whole bytes in
        let turned = layered_turn-runs my_id mem pages page offset all held in
        let stored =
          layer_write-held isa view area_size capacity up sized small alive my_id mem pages t.1 held
            reached filled in
        let pages' = with_page isa view area_size capacity up sized small pages t.1 in
        let same : as_pages isa view pages' ≡ t.0 = stored.1 ∙ turn_stores pages page offset all in
        let later =
          layered_write-is fuel my_id (layer_write isa view alive my_id mem t.1) pages' t.1
            (offset + count) (drop count all) reached stored.0 filled
            (AllBelow-drop 256 count all bytes) (omega (arith, bounds, length-drop count all)) in
        (
          later.0,
          later.1,
          rw (layered_write, turned, ◌>>=◌) later.2,
          ap (λ p. write_loop block_no block_size fuel p t.1 (offset + count) (drop count all))
                (sym same)
              ∙ later.3,
          later.4,
        )
