-- ===== src/Client/TurnBytes.antt =====
-- A turn of the loop of `write`, on the bytes of the file.
use native.Mathlib.Nat.{div-add-mod, mod-lt}
use undergraduate_project.Shared.{
  ℕ, ◌+◌, ◌-◌, ◌*◌, ◌/◌, ◌%◌, ◌≤◌, ◌<◌, ◌≡◌, ◌≢◌, refl, ap, ◌∙◌, arith, ltb, leb, ◌==◌,
  if◌then◌else◌, true, false, ◌&&◌, ◌||◌, not, List, take, length, Bool-cases, inl, inr,
}
use undergraduate_project.Client.Transfer.{
  page_size, Pages, ClientPage, memcpy, read_block, write_block, block_len, write_turn,
}
use undergraduate_project.Client.TransferLaws.{block_len_bounds, length-take}
use undergraduate_project.Client.Bytes.{byte, length-memcpy, byte-memcpy, multiples_apart}
use undergraduate_project.Client.FileBytes.{AllFull, byte_of, Distinct, IsPartial, after_write}

module _ (block_no : ℕ → ℕ) (block_size : ℕ) (positive : 0 < block_size)
    (fits : block_size ≤ page_size) where
  -- What a turn of the loop of `write` does to the pages.
  turn_page :
      (pages : Pages) (page : ClientPage) (offset : ℕ) (buf : List ℕ) (j : ℕ)
      → 0 < length buf
      → IsPartial block_size offset (length buf)
      → let blkno = block_no (offset / block_size) in
        let count = block_len block_size offset (length buf) in
        (write_turn block_no block_size pages page offset buf).0 j ≡ (
          if blkno == j
          then memcpy (pages blkno) (offset % block_size) (take count buf)
          else pages j)
  unfolding write_turn write_block read_block
  turn_page pages page offset buf j some_bytes part =
      let count = block_len block_size offset (length buf) in
      let bounds = block_len_bounds block_size offset (length buf) positive some_bytes in
      let partly : (not (offset % block_size == 0) || ltb (offset % block_size + count) page_size)
          ≡ true =
        elim part [
          | inl small ↦ ground (arith, bounds, small)
          | inr covered ↦
              ground (arith, bounds, covered (offset / block_size), div-add-mod offset block_size)
        ] in
      rw partly refl

  pub turn_page-full :
      (pages : Pages) (page : ClientPage) (offset : ℕ) (buf : List ℕ)
      → 0 < length buf
      → IsPartial block_size offset (length buf)
      → AllFull pages
      → AllFull (write_turn block_no block_size pages page offset buf).0
  turn_page-full pages page offset buf some_bytes part full j =
      let count = block_len block_size offset (length buf) in
      let bounds = block_len_bounds block_size offset (length buf) positive some_bytes in
      let at = offset % block_size in
      let blkno = block_no (offset / block_size) in
      let part_len = length-take count buf (omega (arith, bounds)) in
      ground (
        arith,
        turn_page pages page offset buf j some_bytes part,
        full j,
        full blkno,
        length-memcpy (pages blkno) at (take count buf)
            (omega (arith, bounds, part_len, full blkno)),
      )

  -- A place outside of the block at an offset is not in the part of the range in that block.
  other_block :
      (offset o count : ℕ)
      → offset % block_size + count ≤ block_size
      → offset / block_size ≢ o / block_size
      → (leb offset o && ltb o (offset + count)) ≡ false
  other_block offset o count h n =
      let here = div-add-mod offset block_size in
      let there = div-add-mod o block_size in
      let q = offset / block_size in
      let p = o / block_size in
      elim (Bool-cases (ltb q p)) [
        | inl e ↦ ground (arith, here, there, multiples_apart block_size q p (ground arith))
        | inr e ↦
            ground
              (arith, here, there, mod-lt o positive, multiples_apart block_size p q (ground arith))
      ]

  same_block_place :
      (offset o n : ℕ)
      → offset / block_size ≡ o / block_size
      → ((leb (offset % block_size) (o % block_size)
            && ltb (o % block_size) (offset % block_size + n))
          ≡ (leb offset o && ltb o (offset + n)))
        × (o % block_size - offset % block_size ≡ o - offset)
  same_block_place offset o n e =
      let here = div-add-mod offset block_size in
      let there = div-add-mod o block_size in
      let bases = ap (λ b. block_size * b) e in
      (ground (arith, here, there, bases), omega (arith, here, there, bases))

  -- The bytes of the file after a turn.
  pub turn_bytes :
      (pages : Pages) (page : ClientPage) (offset : ℕ) (buf : List ℕ) (blocks o : ℕ)
      → 0 < length buf
      → IsPartial block_size offset (length buf)
      → AllFull pages
      → Distinct block_no block_size blocks
      → offset / block_size < blocks
      → o / block_size < blocks
      → byte_of block_no block_size (write_turn block_no block_size pages page offset buf).0 o
        ≡ after_write
            (byte_of block_no block_size pages)
            offset
            (take (block_len block_size offset (length buf)) buf)
            o
  turn_bytes pages page offset buf blocks o some_bytes part full distinct below below' =
      let count = block_len block_size offset (length buf) in
      let bounds = block_len_bounds block_size offset (length buf) positive some_bytes in
      let at = offset % block_size in
      let q = offset / block_size in
      let p = o / block_size in
      let piece = take count buf in
      let piece_len = length-take count buf (omega (arith, bounds)) in
      let turned =
        ap (λ content. byte content (o % block_size))
          (turn_page pages page offset buf (block_no p) some_bytes part) in
      elim (Bool-cases (block_no q == block_no p)) [
        | inl e ↦
            let q_eq : q ≡ p = distinct q p below below' (ground arith) in
            let same = same_block_place offset o (length piece) q_eq in
            turned
            ∙ (rw e (
                byte-memcpy (pages (block_no q)) at piece (o % block_size)
                  (omega (arith, bounds, piece_len, full (block_no q)))))
            ∙ ap
                (λ t.
                  if t
                  then byte piece (o % block_size - at)
                  else byte (pages (block_no q)) (o % block_size))
                same.0
            ∙ ap
                (λ i.
                  if leb offset o && ltb o (offset + length piece)
                  then byte piece i
                  else byte (pages (block_no q)) (o % block_size))
                same.1
            ∙ ap
                (λ b.
                  if leb offset o && ltb o (offset + length piece)
                  then byte piece (o - offset)
                  else byte (pages (block_no b)) (o % block_size))
                q_eq
        | inr e ↦
            let apart : q ≢ p = λ q_eq. absurd (ground (arith, e, ap block_no q_eq)) in
            let outside =
              other_block offset o (length piece) (omega (arith, bounds, piece_len)) apart in
            turned ∙ rw (e, outside) refl
      ]
