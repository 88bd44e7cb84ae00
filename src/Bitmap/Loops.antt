-- ===== src/Bitmap/Loops.antt =====
-- The loops of `allocBit` and `freeBit`, against the one change of the word that they make.
use Prim.Native.Nat.{bit_or}
use undergraduate_project.Shared.{
  ℕ, ◌^◌, ◌<◌, ◌≡◌, arith, ◌==◌, if◌then◌else◌, some, List, [], ◌∷◌, Bool-cases, inl, inr,
}
use undergraduate_project.Bitmap.Words.{testbit, testbit-lt, testbit-bit_or, testbit-pow, ffs}
use undergraduate_project.Bitmap.Alloc.{
  Round, allocated, exchanges, alloc_bit, free_bit, IsClaim, claimed-IsClaim, claimed, low_bit,
  bit_or-lt, pow-lt-pow,
}

-- Every value that the loop meets is a word of `w` bits.
abbrev pub AllWords : ℕ → List Round → Type 0
AllWords w [] = Unit
AllWords w (r ∷ rounds) = (r.loaded < 2 ^ w) × (r.current < 2 ^ w) × AllWords w rounds

-- When `allocBit` returns a slot, its exchange met a word in which that slot was the lowest free one,
-- and left that word with the slot taken and every other one as it was.
pub alloc_bit-IsClaim :
    (w origin : ℕ) (rounds : List Round) (i x' : ℕ)
    → origin < 2 ^ w
    → AllWords w rounds
    → alloc_bit w origin rounds ≡ allocated i x'
    → (x : ℕ) × (x < 2 ^ w) × IsClaim w x i x'
unfolding alloc_bit
alloc_bit-IsClaim w origin [] i x' h all e = absurd (ground arith)
alloc_bit-IsClaim w origin (r ∷ rounds) i x' h all e = elim (Bool-cases (origin == 0)) [
  | inl empty ↦ absurd (ground arith)
  | inr some_free ↦ elim (Bool-cases (exchanges origin r)) [
    | inl done ↦
        let slot : i ≡ ffs w (low_bit w origin) = ground arith in
        let word : x' ≡ claimed w origin = ground arith in
        (origin, h, rw (slot, word) (claimed-IsClaim w origin (ground arith) h))
    | inr failed ↦
        alloc_bit-IsClaim w r.current rounds i x' all.1 all.2 (rw (some_free, failed) at e)
  ]
]

-- `freeBit` sets the bit of its slot in the word that its exchange met, and no other.
pub free_bit_frees :
    (w idx : ℕ) (rounds : List Round) (x' : ℕ)
    → idx < w
    → AllWords w rounds
    → free_bit idx rounds ≡ some x'
    → (x : ℕ) × (x < 2 ^ w)
      × (x' < 2 ^ w)
      × ((j : ℕ) → testbit x' j ≡ (if idx == j then 1 else testbit x j))
unfolding free_bit
free_bit_frees w idx [] x' k all e = absurd (ground arith)
free_bit_frees w idx (r ∷ rounds) x' k all e = elim (Bool-cases (exchanges r.loaded r)) [
  | inl done ↦
      let word : x' ≡ bit_or r.loaded (2 ^ idx) = ground arith in
      (
        r.loaded,
        all.0,
        rw word (bit_or-lt w r.loaded (2 ^ idx) all.0 (pow-lt-pow idx w k)),
        λ j. rw word (
            ground (
              arith,
              testbit-bit_or r.loaded (2 ^ idx) j,
              testbit-pow idx j,
              testbit-lt r.loaded j,
            )),
      )
  | inr failed ↦ free_bit_frees w idx rounds x' k all.2 (rw failed at e)
]
