-- ===== src/Bitmap/GivenBack.antt =====
-- `allocBit` and `freeBit` one after another, with no other thread.
use Prim.Native.Nat.{bit_or}
use native.Mathlib.Nat.{pow-suc}
use undergraduate_project.Shared.{
  ℕ, zero, suc, ◌/◌, ◌^◌, ◌<◌, ◌≡◌, arith, false, some, List, [], ◌∷◌,
}
use undergraduate_project.Bitmap.Words.{ffs, testbit, testbit-bit_or, testbit-pow, testbit-lt}
use undergraduate_project.Bitmap.Alloc.{
  Round, allocated, exchanges, low_bit, claimed, alloc_bit, free_bit, bit_or-lt, pow-lt-pow,
  claimed-IsClaim,
}

-- An exchange that no other thread disturbs.
abbrev pub alone : ℕ → List Round
alone word = record { loaded = word; current = word; spurious = false } ∷ []

same_bits :
    (w x y : ℕ) → x < 2 ^ w → y < 2 ^ w → ((j : ℕ) → j < w → testbit x j ≡ testbit y j) → x ≡ y
unfolding testbit
same_bits zero x y hx hy same = omega arith
same_bits (suc w) x y hx hy same =
    let low = same 0 (omega arith) in
    let high : x / 2 ≡ y / 2 =
      same_bits w (x / 2) (y / 2) (omega (arith, pow-suc 2 w)) (omega (arith, pow-suc 2 w))
        (λ j h. same (suc j) (omega arith)) in
    omega (arith, low, high)

-- The slot that a thread takes when it is alone.
abbrev pub slot : ℕ → ℕ → ℕ
slot w word = ffs w (low_bit w word)

pub alloc_alone :
    (w word : ℕ)
    → 0 < word
    → alloc_bit w word (alone word) ≡ allocated (slot w word) (claimed w word)
unfolding alloc_bit exchanges
alloc_alone w word some_free = ground arith

pub free_alone : (idx word : ℕ) → free_bit idx (alone word) ≡ some (bit_or word (2 ^ idx))
unfolding free_bit exchanges
free_alone idx word = ground arith

-- The slot is in range, and freeing it gives the word back.
pub claim_then_free :
    (w word : ℕ)
    → 0 < word
    → word < 2 ^ w
    → (slot w word < w) × (bit_or (claimed w word) (2 ^ slot w word) ≡ word)
claim_then_free w word some_free fits =
    let claim = claimed-IsClaim w word some_free fits in
    (
      claim.in_range,
      same_bits w _ word (bit_or-lt w _ _ claim.fits (pow-lt-pow _ w claim.in_range)) fits (λ j h.
          ground (
            arith,
            testbit-bit_or (claimed w word) (2 ^ slot w word) j,
            testbit-pow (slot w word) j,
            claim.after j h,
            claim.was_free,
            testbit-lt word j,
          )),
    )
