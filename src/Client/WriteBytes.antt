-- ===== src/Client/WriteBytes.antt =====
-- The loop of `write`, on the bytes of the file, and what the loop of `read` gives after it.
use native.Mathlib.Nat.{div-add-mod}
use undergraduate_project.Shared.{
  ℕ, zero, suc, ◌+◌, ◌-◌, ◌*◌, ◌/◌, ◌≤◌, ◌<◌, ◌≡◌, refl, ap, ◌∙◌, arith, ltb, leb, ◌==◌,
  if◌then◌else◌, ◌&&◌, List, [], ◌∷◌, take, drop, length, some, length-drop, Bool-cases, inl, inr,
}
use undergraduate_project.Client.Transfer.{
  page_size, Pages, ClientPage, block_len, write_turn, write_loop, read_loop,
}
use undergraduate_project.Client.TransferLaws.{block_len_bounds, length-take}
use undergraduate_project.Client.Bytes.{
  byte, bytes_at, byte-take, byte-drop, bytes_at-shift, multiples_apart,
}
use undergraduate_project.Client.FileBytes.{
  AllFull, byte_of, Distinct, IsPartial, after_write, read_loop-bytes,
}
use undergraduate_project.Client.TurnBytes.{turn_page-full, turn_bytes}

module _ (block_no : ℕ → ℕ) (block_size : ℕ) (positive : 0 < block_size)
    (fits : block_size ≤ page_size) where
  -- A write of the first bytes and then of the others is a write of all.
  after_write-parts :
      (before : ℕ → ℕ) (offset count : ℕ) (buf : List ℕ) (o : ℕ)
      → count ≤ length buf
      → after_write (after_write before offset (take count buf)) (offset + count) (drop count buf) o
        ≡ after_write before offset buf o
  after_write-parts before offset count buf o h =
      let taken = length-take count buf h in
      let left = length-drop count buf in
      elim (Bool-cases (ltb o (offset + count))) [
        | inl early ↦ elim (Bool-cases (leb offset o)) [
          | inl inside ↦
              ground (arith, taken, left, byte-take count buf (o - offset) (ground arith))
          | inr before' ↦ ground (arith, taken, left)
        ]
        | inr late ↦
            let place : count + (o - (offset + count)) ≡ o - offset = ground arith in
            ground
              (arith, taken, left, byte-drop count buf (o - (offset + count)) ∙ ap (byte buf) place)
      ]

  block_below : (o blocks : ℕ) → o < block_size * blocks → o / block_size < blocks
  block_below o blocks h =
      let place = div-add-mod o block_size in
      elim (Bool-cases (ltb (o / block_size) blocks)) [
        | inl e ↦ ground arith
        | inr e ↦ elim (Bool-cases (o / block_size == blocks)) [
          | inl k ↦
              let q_eq : o / block_size ≡ blocks = ground arith in
              absurd (omega (arith, place, ap (λ n. block_size * n) q_eq))
          | inr k ↦ absurd (
              ground
                (arith, place, multiples_apart block_size blocks (o / block_size) (ground arith)))
        ]
      ]

  -- The loop of `write` ends, and leaves the buffer in its range of the file and all other bytes.
  pub write_loop-bytes :
      (fuel : ℕ) (pages : Pages) (page : ClientPage) (offset : ℕ) (buf : List ℕ) (blocks : ℕ)
      → IsPartial block_size offset (length buf)
      → AllFull pages
      → Distinct block_no block_size blocks
      → offset + length buf ≤ block_size * blocks
      → length buf ≤ fuel
      → (pages' : Pages) × (write_loop block_no block_size fuel pages page offset buf ≡ some pages')
        × AllFull pages'
        × ((o : ℕ)
            → o < block_size * blocks
            → byte_of block_no block_size pages' o
              ≡ after_write (byte_of block_no block_size pages) offset buf o)
  unfolding write_loop
  write_loop-bytes fuel pages page offset [] blocks part full distinct below enough =
      (pages, refl, full, λ o h. ground arith)
  write_loop-bytes zero pages page offset (b ∷ buf) blocks part full distinct below enough =
      absurd (omega arith)
  write_loop-bytes (suc fuel) pages page offset (b ∷ buf) blocks part full distinct below enough =
      let all = b ∷ buf in
      let count = block_len block_size offset (length all) in
      let bounds = block_len_bounds block_size offset (length all) positive (omega arith) in
      let left = length-drop count all in
      let done = write_turn block_no block_size pages page offset all in
      let later_part : IsPartial block_size (offset + count) (length (drop count all)) = elim part [
        | inl small ↦ inl small
        | inr covered ↦ inr (λ b'. elim (covered b') [
          | inl e ↦ inl (omega arith)
          | inr e ↦ inr (omega (arith, left, bounds))
        ])
      ] in
      let later =
        write_loop-bytes fuel done.0 done.1 (offset + count) (drop count all) blocks later_part
          (turn_page-full block_no block_size positive fits pages page offset all (omega arith) part
            full)
          distinct (omega (arith, left, bounds)) (omega (arith, left, bounds)) in
      (
        later.0,
        later.1,
        later.2,
        λ o h.
            later.3 o h
            ∙ ap
                (λ t.
                  if leb (offset + count) o && ltb o (offset + count + length (drop count all))
                  then byte (drop count all) (o - (offset + count))
                  else t)
                (turn_bytes block_no block_size positive fits pages page offset all blocks o
                  (omega arith) part full distinct (block_below offset blocks (omega arith))
                  (block_below o blocks h))
            ∙ after_write-parts (byte_of block_no block_size pages) offset count all o
                (omega (arith, bounds)),
      )

  -- The bytes that a read gives, byte by byte.
  bytes_at-same :
      (f g : ℕ → ℕ) (at len n : ℕ)
      → ((o : ℕ) → o < n → f o ≡ g o)
      → at + len ≤ n
      → bytes_at f at len ≡ bytes_at g at len
  bytes_at-same f g at len n same h =
      bytes_at-shift f g at at len (λ i lt. same (at + i) (omega arith))

  -- With a block size that is not zero and at most that of a page: a write that covers no whole page,
  -- to a file whose blocks have pages of their own and of the full size, ends. A read of any range of
  -- those blocks then ends too, and gives the buffer where the range meets that of the write, and the
  -- bytes from before everywhere else.
  pub write_then_read :
      (pages : Pages) (page : ClientPage) (offset : ℕ) (buf : List ℕ) (at len blocks : ℕ)
      → IsPartial block_size offset (length buf)
      → AllFull pages
      → Distinct block_no block_size blocks
      → offset + length buf ≤ block_size * blocks
      → at + len ≤ block_size * blocks
      → (pages' : Pages) × (write_loop block_no block_size (length buf) pages page offset buf
          ≡ some pages')
        × (read_loop block_no block_size len pages' at len
            ≡ some (bytes_at (after_write (byte_of block_no block_size pages) offset buf) at len))
  write_then_read pages page offset buf at len blocks part full distinct below below' =
      let written =
        write_loop-bytes (length buf) pages page offset buf blocks part full distinct below
          (omega arith) in
      (
        written.0,
        written.1,
        read_loop-bytes block_no block_size positive fits len written.0 at len written.2
              (omega arith)
            ∙ ap some (
                bytes_at-same (byte_of block_no block_size written.0)
                  (after_write (byte_of block_no block_size pages) offset buf) at len
                  (block_size * blocks) written.3 below'),
      )
