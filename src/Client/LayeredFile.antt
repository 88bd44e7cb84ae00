-- ===== src/Client/LayeredFile.antt =====
-- A file whose pages the erasure-coded layer keeps, written and read by the loops of the client.
use undergraduate_project.Shared.{
  ℕ, ◌+◌, ◌*◌, ◌≤◌, ◌<◌, ◌^◌, ◌≡◌, sym, ap, ◌∙◌, arith, ◌==◌, Bool, true, ◌||◌, Option, none, some,
  List, length,
}
use undergraduate_project.Ecal.Code.{IsaL, BlockBytes, AllBelow}
use undergraduate_project.Ecal.Layout.{group_size, cluster_capacity}
use undergraduate_project.Ecal.Blocks.{Memory}
use undergraduate_project.Ecal.Recovery.{TwoAlive}
use undergraduate_project.Ecal.Refinement.{Array, Represents}
use undergraduate_project.Client.Transfer.{page_size, Pages, ClientPage}
use undergraduate_project.Client.Bytes.{bytes_at}
use undergraduate_project.Client.FileBytes.{byte_of, Distinct, IsPartial, after_write}
use undergraduate_project.Client.WriteBytes.{write_then_read}
use undergraduate_project.Client.Layered.{layered_write, layered_read}
use undergraduate_project.Client.LayeredPages.{as_pages, length-as_pages, IsWhole}
use undergraduate_project.Client.LayeredLoops.{layered_write-is, layered_read-is}

-- The pages of a loop that ended.
abbrev pages_of : Pages → Option Pages → Pages
pages_of other none = other
pages_of other (some pages) = pages

module _ (isa : IsaL) (view : BlockBytes isa) (area_size capacity : ℕ) (up : ℕ → Bool)
    (sized : cluster_capacity group_size area_size ≡ some capacity) (small : area_size < 2 ^ 64)
    (block_no : ℕ → ℕ) (placed : (b : ℕ) → block_no b < capacity) (block_size : ℕ)
    (positive : 0 < block_size) (fits : block_size ≤ page_size) where
  -- In a cluster of one group whose nodes `up` hold the pages of an array, with the blocks of a file on
  -- pages of their own below the capacity, and a block size that is not zero and at most that of a
  -- page: while two of the nodes `up` are alive, and each of `up` is alive or is the writer, a write of
  -- bytes that covers no whole page ends. Later, when others of `up` but still two are alive, a read of any range
  -- of the file's blocks gives the bytes that were written where they were written, and those of the
  -- array everywhere else.
  pub write_survives_loss :
      (mem : Memory isa) (pages : Array isa) (page : ClientPage) (offset : ℕ) (buf : List ℕ)
      (my_id at len blocks : ℕ) (alive later : ℕ → Bool)
      → Represents isa up capacity mem pages
      → TwoAlive isa alive
      → ((n : ℕ) → n < group_size → alive n ≡ true → up n ≡ true)
      → ((n : ℕ) → n < group_size → up n ≡ true → (n == my_id || alive n) ≡ true)
      → TwoAlive isa later
      → ((n : ℕ) → n < group_size → later n ≡ true → up n ≡ true)
      → IsWhole isa view capacity page
      → AllBelow 256 buf
      → IsPartial block_size offset (length buf)
      → Distinct block_no block_size blocks
      → offset + length buf ≤ block_size * blocks
      → at + len ≤ block_size * blocks
      → (mem' : Memory isa) × (layered_write isa view block_no block_size
            (length buf)
            alive
            my_id
            mem
            page
            offset
            buf
          ≡ some mem')
        × (layered_read isa view block_no block_size len later mem' at len
            ≡ some (
                bytes_at
                  (after_write (byte_of block_no block_size (as_pages isa view pages)) offset buf)
                  at
                  len))
  write_survives_loss mem pages page offset buf my_id at len blocks alive later held two live
        reached two' live' whole bytes part distinct below below' =
      let stored =
        layered_write-is isa view area_size capacity up sized small block_no placed block_size
          positive fits alive two live (length buf) my_id mem pages page offset buf reached held
          whole bytes (omega arith) in
      let loops =
        write_then_read block_no block_size positive fits (as_pages isa view pages) page offset buf
          at len blocks part (length-as_pages isa view pages) distinct below below' in
      let same : as_pages isa view stored.1 ≡ loops.0 =
        ap (pages_of loops.0) (sym stored.3 ∙ loops.1) in
      (
        stored.0,
        stored.2,
        layered_read-is isa view area_size capacity up sized small block_no placed block_size
              positive fits later two' live' len stored.0 stored.1 at len stored.4
            ∙ ap
                (λ p.
                  undergraduate_project.Client.Transfer.read_loop block_no block_size len p at len)
                same
            ∙ loops.2,
      )
