-- ===== src/Client/TransferLaws.antt =====
-- The loops of `write` and `read`: their end, their bytes, and the pages that they write.
use undergraduate_project.Shared.{
  append-nil, ℕ, zero, suc, ◌+◌, ◌-◌, ◌/◌, ◌%◌, ◌≤◌, ◌<◌, ltb, ◌==◌, true, false, not, ◌||◌, some,
  List, [], ◌∷◌, ◌++◌, take, drop, length, ◌≡◌, ◌≢◌, refl, ap, ◌∙◌, arith, length-append,
  length-drop,
}
use undergraduate_project.Client.Transfer.{
  page_size, Pages, ClientPage, fresh_page, memcpy, read_block, write_block, block_len, write_turn,
  write_loop, read_loop,
}

-- The part of a block that a turn transfers is not empty, and is inside the block and the buffer.
pub block_len_bounds :
    (block_size offset len : ℕ)
    → 0 < block_size
    → 0 < len
    → (0 < block_len block_size offset len)
      × (block_len block_size offset len ≤ len)
      × (offset % block_size + block_len block_size offset len ≤ block_size)
unfolding block_len
block_len_bounds block_size offset len h k = ground arith

pub length-take : (n : ℕ) (xs : List ℕ) → n ≤ length xs → length (take n xs) ≡ n
length-take zero xs h = refl
length-take (suc n) [] h = absurd (omega arith)
length-take (suc n) (x ∷ xs) h = omega (arith, length-take n xs)

pub take_all : (n : ℕ) (xs : List ℕ) → length xs ≡ n → take n xs ≡ xs
take_all n [] h = ground arith
take_all zero (x ∷ xs) h = absurd (omega arith)
take_all (suc n) (x ∷ xs) h = ap (◌∷◌ x) (take_all n xs (omega arith))

drop_all : (n : ℕ) (xs : List ℕ) → length xs ≡ n → drop n xs ≡ []
drop_all n [] h = ground arith
drop_all zero (x ∷ xs) h = absurd (omega arith)
drop_all (suc n) (x ∷ xs) h = drop_all n xs (omega arith)

take-append : (n : ℕ) (xs ys : List ℕ) → length xs ≡ n → take n (xs ++ ys) ≡ xs
take-append zero [] ys h = refl
take-append (suc n) [] ys h = absurd (omega arith)
take-append zero (x ∷ xs) ys h = absurd (omega arith)
take-append (suc n) (x ∷ xs) ys h = ap (◌∷◌ x) (take-append n xs ys (omega arith))

drop-append : (n : ℕ) (xs ys : List ℕ) → length xs ≡ n → drop n (xs ++ ys) ≡ ys
drop-append zero [] ys h = refl
drop-append (suc n) [] ys h = absurd (omega arith)
drop-append zero (x ∷ xs) ys h = absurd (omega arith)
drop-append (suc n) (x ∷ xs) ys h = drop-append n xs ys (omega arith)

-- What `memcpy` copied stands where it was put.
memcpy-shows :
    (dst : List ℕ) (at : ℕ) (src : List ℕ)
    → at ≤ length dst
    → take (length src) (drop at (memcpy dst at src)) ≡ src
unfolding memcpy
memcpy-shows dst at src h =
    let rest = drop (at + length src) dst in
    ap (take (length src)) (drop-append at (take at dst) (src ++ rest) (length-take at dst h))
    ∙ take-append (length src) src rest refl

-- A buffer that fits the block at its offset is one turn.
one_block :
    (block_size offset len : ℕ)
    → offset % block_size + len ≤ block_size
    → block_len block_size offset len ≡ len
unfolding block_len
one_block block_size offset len h = ground arith

module _ (block_no : ℕ → ℕ) (block_size : ℕ) where
  -- The loop of `write` ends, with a turn for each byte of the buffer to spare.
  pub write_loop_ends :
      (fuel : ℕ) (pages : Pages) (page : ClientPage) (offset : ℕ) (buf : List ℕ)
      → 0 < block_size
      → length buf ≤ fuel
      → (pages' : Pages) × (write_loop block_no block_size fuel pages page offset buf ≡ some pages')
  unfolding write_loop
  write_loop_ends fuel pages page offset [] h enough = (pages, refl)
  write_loop_ends zero pages page offset (b ∷ buf) h enough = absurd (omega arith)
  write_loop_ends (suc fuel) pages page offset (b ∷ buf) h enough =
      let count = block_len block_size offset (length (b ∷ buf)) in
      let bounds = block_len_bounds block_size offset (length (b ∷ buf)) h (omega arith) in
      write_loop_ends fuel _ _ (offset + count) (drop count (b ∷ buf)) h
        (omega (arith, bounds, length-drop count (b ∷ buf)))

  -- From pages of the full size, the loop of `read` ends and gives as many bytes as were asked for.
  pub read_loop_gives :
      (fuel : ℕ) (pages : Pages) (offset len : ℕ)
      → 0 < block_size
      → block_size ≤ page_size
      → ((j : ℕ) → length (pages j) ≡ page_size)
      → len ≤ fuel
      → (bytes : List ℕ) × (read_loop block_no block_size fuel pages offset len ≡ some bytes)
        × (length bytes ≡ len)
  unfolding read_loop read_block
  read_loop_gives fuel pages offset zero h k full enough = ([], refl, refl)
  read_loop_gives zero pages offset (suc len) h k full enough = absurd (omega arith)
  read_loop_gives (suc fuel) pages offset (suc len) h k full enough =
      let count = block_len block_size offset (suc len) in
      let bounds = block_len_bounds block_size offset (suc len) h (omega arith) in
      let rest =
        read_loop_gives fuel pages (offset + count) (suc len - count) h k full
          (omega (arith, bounds)) in
      let part = drop (offset % block_size) (pages (block_no (offset / block_size))) in
      let whole : count ≤ length part = omega (
        arith,
        bounds,
        full (block_no (offset / block_size)),
        length-drop (offset % block_size) (pages (block_no (offset / block_size))),
      ) in
      (
        take count part ++ rest.0,
        rw (read_loop, rest.1) refl,
        omega (
          arith,
          bounds,
          rest.2,
          length-append (take count part) rest.0,
          length-take count part whole,
        ),
      )

  write_one :
      (fuel : ℕ) (pages : Pages) (page : ClientPage) (offset b : ℕ) (buf : List ℕ)
      → offset % block_size + length (b ∷ buf) ≤ block_size
      → write_loop block_no block_size (suc fuel) pages page offset (b ∷ buf)
        ≡ some (write_turn block_no block_size pages page offset (b ∷ buf)).0
  unfolding write_loop
  write_one fuel pages page offset b buf h =
      let one = one_block block_size offset (length (b ∷ buf)) h in
      let none_left = drop_all (length (b ∷ buf)) (b ∷ buf) refl in ground (arith, one, none_left)

  read_one :
      (fuel : ℕ) (pages : Pages) (offset len : ℕ)
      → offset % block_size + suc len ≤ block_size
      → read_loop block_no block_size (suc fuel) pages offset (suc len)
        ≡ some
            (take (suc len) (drop (offset % block_size) (pages (block_no (offset / block_size)))))
  unfolding read_loop read_block
  read_one fuel pages offset len h =
      let page = pages (block_no (offset / block_size)) in
      let one = one_block block_size offset (suc len) h in
      let none_left : suc len - block_len block_size offset (suc len) ≡ 0 = omega (arith, one) in
      rw (read_loop, none_left, one)
        (ap some (append-nil (take (suc len) (drop (offset % block_size) page))))

  turn_whole :
      (pages : Pages) (junk buf : List ℕ) (offset j : ℕ)
      → block_size ≡ page_size
      → offset % block_size ≡ 0
      → length buf ≡ page_size
      → j ≢ 0
      → (write_turn block_no block_size pages (fresh_page junk) offset buf).0 j ≡ pages j
  unfolding write_turn write_block
  turn_whole pages junk buf offset j e a l n =
      let one = one_block block_size offset (length buf) (omega arith) in
      let whole : (not (offset % block_size == 0)
            || ltb (offset % block_size + length buf) page_size)
          ≡ false =
        ground arith in
      rw (one, whole) (ground arith)

  turn_partial :
      (pages : Pages) (page : ClientPage) (offset : ℕ) (buf : List ℕ)
      → offset % block_size + length buf ≤ block_size
      → length buf < page_size
      → (write_turn block_no block_size pages page offset buf).0 (block_no (offset / block_size))
        ≡ memcpy (pages (block_no (offset / block_size))) (offset % block_size) buf
  unfolding write_turn write_block read_block
  turn_partial pages page offset buf h k =
      let one = one_block block_size offset (length buf) h in
      let partly : (not (offset % block_size == 0)
            || ltb (offset % block_size + length buf) page_size)
          ≡ true =
        ground arith in
      rw (one, partly, take_all (length buf) buf refl) (ground arith)

  -- A write of a whole aligned page from a fresh page of the client leaves every page of the cluster
  -- but page 0 as it was, wherever the block belongs.
  pub whole_page_goes_to_0 :
      (pages : Pages) (junk buf : List ℕ) (offset j : ℕ)
      → block_size ≡ page_size
      → offset % block_size ≡ 0
      → length buf ≡ page_size
      → j ≢ 0
      → (pages' : Pages) × (write_loop block_no block_size page_size pages
            (fresh_page junk)
            offset
            buf
          ≡ some pages')
        × (pages' j ≡ pages j)
  whole_page_goes_to_0 pages junk [] offset j e a l n = absurd (omega arith)
  whole_page_goes_to_0 pages junk (b ∷ buf) offset j e a l n = (
    (write_turn block_no block_size pages (fresh_page junk) offset (b ∷ buf)).0,
    write_one 4095 pages (fresh_page junk) offset b buf (omega arith),
    turn_whole pages junk (b ∷ buf) offset j e a l n,
  )

  -- What is written inside one block, and is less than a page, is read back.
  pub read_after_partial_write :
      (pages : Pages) (page : ClientPage) (offset : ℕ) (buf : List ℕ)
      → 0 < block_size
      → block_size ≤ page_size
      → offset % block_size + length buf ≤ block_size
      → length buf < page_size
      → length (pages (block_no (offset / block_size))) ≡ page_size
      → (pages' : Pages) × (write_loop block_no block_size (length buf) pages page offset buf
          ≡ some pages')
        × (read_loop block_no block_size (length buf) pages' offset (length buf) ≡ some buf)
  unfolding write_loop read_loop
  read_after_partial_write pages page offset [] h k inside small full = (pages, refl, refl)
  read_after_partial_write pages page offset (b ∷ buf) h k inside small full =
      let pages' = (write_turn block_no block_size pages page offset (b ∷ buf)).0 in
      let place = block_no (offset / block_size) in
      let at = offset % block_size in
      let shown : take (length (b ∷ buf)) (drop at (pages' place)) ≡ b ∷ buf =
        rw (turn_partial pages page offset (b ∷ buf) inside small)
          (memcpy-shows (pages place) at (b ∷ buf) (omega arith)) in
      (
        pages',
        write_one (length buf) pages page offset b buf inside,
        read_one (length buf) pages' offset (length buf) inside ∙ ap some shown,
      )
