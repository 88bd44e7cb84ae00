-- ===== src/Client/FileBytes.antt =====
-- A file as an array of bytes: what the loops of `write` and `read` do to the bytes of its blocks.
use undergraduate_project.Shared.{
  ℕ, zero, suc, ◌+◌, ◌-◌, ◌*◌, ◌/◌, ◌%◌, ◌≤◌, ◌<◌, ◌≡◌, ◌⊎◌, refl, sym, ap, ◌∙◌, arith, ltb, leb,
  if◌then◌else◌, ◌&&◌, List, ◌++◌, take, drop, length, some,
}
use undergraduate_project.Client.Transfer.{page_size, Pages, read_block, block_len, read_loop}
use undergraduate_project.Client.TransferLaws.{block_len_bounds}
use undergraduate_project.Client.Bytes.{
  byte, bytes_at, take-drop-bytes_at, bytes_at-shift, bytes_at_eq, bytes_at-append, same_block,
}

-- Every page has its full size.
abbrev pub AllFull : Pages → Type 0
AllFull pages = (j : ℕ) → length (pages j) ≡ page_size

-- No page is covered as a whole by the range.
abbrev pub IsPartial : ℕ → ℕ → ℕ → Type 0
IsPartial block_size offset len =
    (block_size < page_size)
    ⊎ ((b : ℕ) → (block_size * b < offset) ⊎ (offset + len < block_size * b + page_size))

-- What a file holds after a write: the buffer inside of its range, and elsewhere what was there.
abbrev pub after_write : (ℕ → ℕ) → ℕ → List ℕ → ℕ → ℕ
after_write before offset buf o =
    if leb offset o && ltb o (offset + length buf) then byte buf (o - offset) else before o

module _ (block_no : ℕ → ℕ) (block_size : ℕ) where
  -- The byte of the file at an offset.
  abbrev pub byte_of : Pages → ℕ → ℕ
  byte_of pages o = byte (pages (block_no (o / block_size))) (o % block_size)

  -- The blocks below `blocks` have pages of their own.
  abbrev pub Distinct : ℕ → Type 0
  Distinct blocks = (a b : ℕ) → a < blocks → b < blocks → block_no a ≡ block_no b → a ≡ b

  module _ (positive : 0 < block_size) (fits : block_size ≤ page_size) where
    -- The loop of `read` gives the bytes of the file.
    pub read_loop-bytes :
        (fuel : ℕ) (pages : Pages) (offset len : ℕ)
        → AllFull pages
        → len ≤ fuel
        → read_loop block_no block_size fuel pages offset len
          ≡ some (bytes_at (byte_of pages) offset len)
    unfolding read_loop read_block
    read_loop-bytes fuel pages offset zero full enough = refl
    read_loop-bytes zero pages offset (suc len) full enough = absurd (omega arith)
    read_loop-bytes (suc fuel) pages offset (suc len) full enough =
        let count = block_len block_size offset (suc len) in
        let bounds = block_len_bounds block_size offset (suc len) positive (omega arith) in
        let content = pages (block_no (offset / block_size)) in
        let rest =
          read_loop-bytes fuel pages (offset + count) (suc len - count) full
            (omega (arith, bounds)) in
        let part : take count (drop (offset % block_size) content)
            ≡ bytes_at (byte_of pages) offset count =
          (take-drop-bytes_at content (offset % block_size) count
              (omega (arith, bounds, full (block_no (offset / block_size))))
            ∙ bytes_at-shift (byte content) (byte_of pages) (offset % block_size) offset count
                (λ i lt.
                  let place = same_block block_size offset i positive (omega (arith, bounds)) in
                  sym (
                    ap (λ b. byte (pages (block_no b)) ((offset + i) % block_size)) place.0
                    ∙ ap (byte content) place.1))) in
        rw (read_loop, rest)
          (ap some (
            ap (λ xs. xs ++ bytes_at (byte_of pages) (offset + count) (suc len - count)) part
            ∙ bytes_at-append (byte_of pages) offset count (suc len - count)
            ∙ bytes_at_eq (byte_of pages) offset offset (count + (suc len - count)) (suc len) refl
                (omega (arith, bounds))))
