-- ===== src/Client/LayeredPages.antt =====
-- The pages that the layer holds, as `Pages` of bytes: one access of the client on each side.
use undergraduate_project.Shared.{
  ℕ, zero, suc, ◌+◌, ◌<◌, ◌≡◌, refl, sym, ap, subst, fun_ext, ◌∙◌, arith, ◌==◌, Bool, true, false,
  ◌||◌, some, List, [], ◌∷◌, ◌++◌, take, drop, length, length-append, length-drop, append-nil, ◌^◌,
  Bool-cases, inl, inr, update,
}
use undergraduate_project.Ecal.Code.{IsaL, BlockBytes, AllBelow}
use undergraduate_project.Ecal.Layout.{group_size, block_bytes, cluster_capacity}
use undergraduate_project.Ecal.Blocks.{Memory}
use undergraduate_project.Ecal.Recovery.{TwoAlive, read_held}
use undergraduate_project.Ecal.Refinement.{Array, Represents, write-Represents}
use undergraduate_project.Client.Transfer.{
  page_size, Pages, ClientPage, memcpy, read_block, write_block,
}
use undergraduate_project.Client.TransferLaws.{length-take}
use undergraduate_project.Client.Layered.{content_of, page_blocks, layer_read, layer_write}

pub AllBelow-append :
    (n : ℕ) (xs ys : List ℕ) → AllBelow n xs → AllBelow n ys → AllBelow n (xs ++ ys)
AllBelow-append n [] ys h k = k
AllBelow-append n (x ∷ xs) ys h k = (h.0, AllBelow-append n xs ys h.1 k)

pub AllBelow-take : (n m : ℕ) (xs : List ℕ) → AllBelow n xs → AllBelow n (take m xs)
AllBelow-take n zero xs h = tt
AllBelow-take n (suc m) [] h = tt
AllBelow-take n (suc m) (x ∷ xs) h = (h.0, AllBelow-take n m xs h.1)

pub AllBelow-drop : (n m : ℕ) (xs : List ℕ) → AllBelow n xs → AllBelow n (drop m xs)
AllBelow-drop n zero xs h = h
AllBelow-drop n (suc m) [] h = tt
AllBelow-drop n (suc m) (x ∷ xs) h = AllBelow-drop n m xs h.1

pub AllBelow-memcpy :
    (n : ℕ) (dst : List ℕ) (at : ℕ) (src : List ℕ)
    → AllBelow n dst
    → AllBelow n src
    → AllBelow n (memcpy dst at src)
unfolding memcpy
AllBelow-memcpy n dst at src h k =
    AllBelow-append n (take at dst) (src ++ drop (at + length src) dst) (AllBelow-take n at dst h) (
      AllBelow-append n src (drop (at + length src) dst) k
        (AllBelow-drop n (at + length src) dst h))

take-append-drop : (n : ℕ) (xs : List ℕ) → take n xs ++ drop n xs ≡ xs
take-append-drop zero xs = refl
take-append-drop (suc n) [] = refl
take-append-drop (suc n) (x ∷ xs) = ap (◌∷◌ x) (take-append-drop n xs)

module _ (isa : IsaL) (view : BlockBytes isa) where
  -- The pages of an array.
  abbrev pub as_pages : Array isa → Pages
  as_pages pages j = content_of isa view ((pages j).0 ∷ (pages j).1 ∷ [])

  content-two : (b c : isa.Block) → content_of isa view (b ∷ c ∷ []) ≡ view.bytes b ++ view.bytes c
  unfolding content_of
  content-two b c = ap (◌++◌ (view.bytes b)) (append-nil (view.bytes c))

  pub length-as_pages : (pages : Array isa) (j : ℕ) → length (as_pages pages j) ≡ page_size
  length-as_pages pages j =
      ap length (content-two (pages j).0 (pages j).1)
      ∙ omega (
        arith,
        length-append (view.bytes (pages j).0) (view.bytes (pages j).1),
        view.length-bytes (pages j).0,
        view.length-bytes (pages j).1,
      )

  pub as_pages-AllBelow : (pages : Array isa) (j : ℕ) → AllBelow 256 (as_pages pages j)
  as_pages-AllBelow pages j = subst (AllBelow 256) (sym (content-two (pages j).0 (pages j).1)) (
      AllBelow-append 256 (view.bytes (pages j).0) (view.bytes (pages j).1)
        (view.bytes-AllBelow (pages j).0) (view.bytes-AllBelow (pages j).1))

  -- The bytes of a page go through its blocks.
  content-page_blocks :
      (content : List ℕ)
      → length content ≡ page_size
      → AllBelow 256 content
      → content_of isa view (page_blocks isa view content) ≡ content
  content-page_blocks content full bytes =
      let first = take block_bytes content in
      let second = drop block_bytes content in
      content-two (view.block first) (view.block second)
      ∙ ap (λ xs. xs ++ view.bytes (view.block second))
          (view.bytes-block first (length-take block_bytes content (omega arith))
            (AllBelow-take 256 block_bytes content bytes))
      ∙ ap (λ ys. first ++ ys)
          (view.bytes-block second (omega (arith, length-drop block_bytes content))
            (AllBelow-drop 256 block_bytes content bytes))
      ∙ take-append-drop block_bytes content

  as_pages-update :
      (pages : Array isa) (page : ClientPage) (b c : isa.Block)
      → content_of isa view (b ∷ c ∷ []) ≡ page.content
      → (j : ℕ) → as_pages (update pages page.index (b, c)) j ≡ write_block (as_pages pages) page j
  unfolding write_block
  as_pages-update pages page b c e j = elim (Bool-cases (page.index == j)) [
    | inl here ↦ let back : (j == page.index) ≡ true = ground arith in rw (back, here) e
    | inr other ↦ let back : (j == page.index) ≡ false = ground arith in rw (back, other) refl
  ]

  -- A page of the client that the layer can take.
  abbrev pub IsWhole : ℕ → ClientPage → Type 0
  IsWhole capacity page =
      (page.index < capacity) × (length page.content ≡ page_size) × AllBelow 256 page.content

  module _ (area_size capacity : ℕ) (up : ℕ → Bool)
      (sized : cluster_capacity group_size area_size ≡ some capacity)
      (small : area_size < 2 ^ 64) where
    pub layer_read-held :
        (alive : ℕ → Bool) (mem : Memory isa) (pages : Array isa) (blkno : ℕ)
        → Represents isa up capacity mem pages
        → TwoAlive isa alive
        → ((n : ℕ) → n < group_size → alive n ≡ true → up n ≡ true)
        → blkno < capacity
        → layer_read isa view alive mem blkno ≡ some (read_block (as_pages pages) blkno)
    unfolding layer_read read_block
    layer_read-held alive mem pages blkno held two live below =
        rw
          (
            layer_read,
            read_held isa group_size alive mem (pages blkno).0 (pages blkno).1 blkno two
                (λ n node on. held blkno n below node (live n node on)),
          )
          refl

    -- The array after the client wrote a page.
    abbrev pub with_page : Array isa → ClientPage → Array isa
    with_page pages page =
        update pages page.index
          (view.block (take block_bytes page.content), view.block (drop block_bytes page.content))

    pub layer_write-held :
        (alive : ℕ → Bool) (my_id : ℕ) (mem : Memory isa) (pages : Array isa) (page : ClientPage)
        → Represents isa up capacity mem pages
        → ((n : ℕ) → n < group_size → up n ≡ true → (n == my_id || alive n) ≡ true)
        → IsWhole capacity page
        → Represents isa up capacity
            (layer_write isa view alive my_id mem page)
            (with_page pages page)
          × (as_pages (with_page pages page) ≡ write_block (as_pages pages) page)
    unfolding layer_write write_block
    layer_write-held alive my_id mem pages page held reached whole = (
      write-Represents isa area_size capacity up sized small mem pages
          (record {
            index = page.index;
            first = view.block (take block_bytes page.content);
            second = view.block (drop block_bytes page.content);
            writer = my_id;
            alive = alive;
          })
          whole.0 reached held,
      fun_ext (as_pages-update pages page _ _ (content-page_blocks page.content whole.1 whole.2)),
    )
