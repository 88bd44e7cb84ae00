-- ===== src/Client/Layered.antt =====
-- The loops of `LocofsClient::write` and `read` on the erasure-coded layer itself, whose calls can come
-- at a time when a node is lost. A page of the client is 4096 bytes, which the layer takes as two blocks.
use undergraduate_project.Shared.{
  ℕ, zero, suc, ◌+◌, ◌-◌, ◌/◌, ◌%◌, ltb, ◌==◌, if◌then◌else◌, Bool, not, ◌||◌, Option, none, some,
  ◌>>=◌, List, [], ◌∷◌, ◌++◌, take, drop, length,
}
use undergraduate_project.Ecal.Code.{IsaL, BlockBytes}
use undergraduate_project.Ecal.Layout.{group_size, block_bytes}
use undergraduate_project.Ecal.Blocks.{Memory, write_block, read_block}
use undergraduate_project.Client.Transfer.{page_size, ClientPage, memcpy, block_len}

module _ (isa : IsaL) (view : BlockBytes isa) where
  -- The bytes of a page, and the page of some bytes.
  unfoldable pub content_of : List isa.Block → List ℕ
  content_of [] = []
  content_of (b ∷ bs) = view.bytes b ++ content_of bs

  abbrev pub page_blocks : List ℕ → List isa.Block
  page_blocks content =
      view.block (take block_bytes content) ∷ view.block (drop block_bytes content) ∷ []

  -- `ecal.readBlock(blkno, page)`.
  unfoldable pub layer_read : (ℕ → Bool) → Memory isa → ℕ → Option ClientPage
  unfolding content_of
  layer_read alive mem blkno = read_block isa group_size alive mem blkno >>= λ got.
      some (record { content = content_of got.page; index = got.index })

  -- `ecal.writeBlock(page)`.
  unfoldable pub layer_write : (ℕ → Bool) → ℕ → Memory isa → ClientPage → Memory isa
  layer_write alive my_id mem page =
      write_block isa group_size alive my_id mem
        (record { page = page_blocks page.content; index = page.index })

  module _ (block_no : ℕ → ℕ) (block_size : ℕ) where
    -- One turn of the loop of `write`. Where the layer cannot read: `none`.
    unfoldable pub layered_turn :
        (ℕ → Bool) → ℕ → Memory isa → ClientPage → ℕ → List ℕ → Option (Memory isa × ClientPage)
    layered_turn alive my_id mem page offset buf =
        let block_off = offset % block_size in
        let count = block_len block_size offset (length buf) in
        let blkno = block_no (offset / block_size) in
        let old = layer_read alive mem blkno in
        let partly : ClientPage → Option ClientPage =
          λ got. some (record got { content = memcpy got.content block_off (take count buf) }) in
        let wholly = record page { content = memcpy page.content 0 (take count buf) } in
        let filled =
          if not (block_off == 0) || ltb (block_off + count) page_size
          then (old >>= partly)
          else some wholly in
        filled >>= λ done. some (layer_write alive my_id mem done, done)

    -- The loop of `write`, on fuel as `Transfer.write_loop`.
    unfoldable pub layered_write :
        ℕ → (ℕ → Bool) → ℕ → Memory isa → ClientPage → ℕ → List ℕ → Option (Memory isa)
    layered_write fuel alive my_id mem page offset [] = some mem
    layered_write zero alive my_id mem page offset (b ∷ buf) = none
    layered_write (suc fuel) alive my_id mem page offset (b ∷ buf) =
        let count = block_len block_size offset (length (b ∷ buf)) in
        let turned = layered_turn alive my_id mem page offset (b ∷ buf) in
        let later : Memory isa → ClientPage → Option (Memory isa) = λ mem' page'.
          layered_write fuel alive my_id mem' page' (offset + count) (drop count (b ∷ buf)) in
        turned >>= λ done. later done.0 done.1

    -- The loop of `read`.
    unfoldable pub layered_read : ℕ → (ℕ → Bool) → Memory isa → ℕ → ℕ → Option (List ℕ)
    layered_read fuel alive mem offset zero = some []
    layered_read zero alive mem offset (suc len) = none
    layered_read (suc fuel) alive mem offset (suc len) =
        let count = block_len block_size offset (suc len) in
        let got = layer_read alive mem (block_no (offset / block_size)) in
        let rest = layered_read fuel alive mem (offset + count) (suc len - count) in
        got >>= λ page.
        rest >>= λ bytes. some (take count (drop (offset % block_size) page.content) ++ bytes)
