-- ===== src/Bitmap/Words.antt =====
-- Words of `w` bits: negation, complement, the lowest bit set, and the digits of each.
use Prim.Native.Nat.{min, max, bit_and, bit_or}
use native.Mathlib.Nat.{pow-suc, one-le-pow, mod-eq_of_lt}
use undergraduate_project.Shared.{
  ℕ, zero, suc, ◌+◌, ◌-◌, ◌/◌, ◌%◌, ◌^◌, ◌<◌, ◌≡◌, refl, ap, arith, ◌==◌, if◌then◌else◌, Bool-cases,
  inl, inr,
}
use undergraduate_project.Bitmap.Bits.{bit_and_step, bit_or_step}

-- Unary minus and `~` on a word of `w` bits.
unfoldable pub negate : ℕ → ℕ → ℕ
negate w x = (2 ^ w - x) % 2 ^ w

unfoldable pub complement : ℕ → ℕ → ℕ
complement w x = 2 ^ w - 1 - x

-- `__builtin_ffs(x) - 1` for a word of `w` bits that is not 0: the place of the lowest bit set.
unfoldable pub ffs : ℕ → ℕ → ℕ
ffs zero x = 0
ffs (suc w) x = let later = suc (ffs w (x / 2)) in if x % 2 == 1 then 0 else later

unfoldable pub testbit : ℕ → ℕ → ℕ
testbit x zero = x % 2
testbit x (suc i) = testbit (x / 2) i

pub testbit-lt : (x i : ℕ) → testbit x i < 2
unfolding testbit
testbit-lt x zero = omega arith
testbit-lt x (suc i) = testbit-lt (x / 2) i

pub testbit-bit_and : (a b i : ℕ) → testbit (bit_and a b) i ≡ min (testbit a i) (testbit b i)
unfolding testbit
testbit-bit_and a b zero = omega (arith, bit_and_step a b)
testbit-bit_and a b (suc i) =
    let half : bit_and a b / 2 ≡ bit_and (a / 2) (b / 2) = omega (arith, bit_and_step a b) in
    rw half (testbit-bit_and (a / 2) (b / 2) i)

pub testbit-bit_or : (a b i : ℕ) → testbit (bit_or a b) i ≡ max (testbit a i) (testbit b i)
unfolding testbit
testbit-bit_or a b zero = omega (arith, bit_or_step a b)
testbit-bit_or a b (suc i) =
    let half : bit_or a b / 2 ≡ bit_or (a / 2) (b / 2) = omega (arith, bit_or_step a b) in
    rw half (testbit-bit_or (a / 2) (b / 2) i)

pub testbit-complement :
    (w x i : ℕ) → x < 2 ^ w → i < w → testbit (complement w x) i + testbit x i ≡ 1
unfolding testbit complement
testbit-complement zero x i h k = absurd (omega arith)
testbit-complement (suc w) x zero h k = omega (arith, pow-suc 2 w, one-le-pow w 2)
testbit-complement (suc w) x (suc i) h k =
    let half : (2 ^ suc w - 1 - x) / 2 ≡ 2 ^ w - 1 - x / 2 = omega (arith, pow-suc 2 w) in
    rw half (testbit-complement w (x / 2) i (omega (arith, pow-suc 2 w)) (omega arith))

pub testbit-zero : (i : ℕ) → testbit 0 i ≡ 0
unfolding testbit
testbit-zero zero = refl
testbit-zero (suc i) = testbit-zero i

pub testbit-pow : (k i : ℕ) → testbit (2 ^ k) i ≡ (if k == i then 1 else 0)
unfolding testbit
testbit-pow zero zero = refl
testbit-pow zero (suc i) = ground (arith, testbit-zero i)
testbit-pow (suc k) zero = ground (arith, pow-suc 2 k)
testbit-pow (suc k) (suc i) =
    let half : 2 ^ suc k / 2 ≡ 2 ^ k = omega (arith, pow-suc 2 k) in
    rw half (ground (arith, testbit-pow k i))

-- A word and its complement have no bit in common.
bit_and-complement : (w x : ℕ) → x < 2 ^ w → bit_and x (2 ^ w - 1 - x) ≡ 0
bit_and-complement zero x h = let e : x ≡ 0 = omega arith in rw e refl
bit_and-complement (suc w) x h =
    let half : (2 ^ suc w - 1 - x) / 2 ≡ 2 ^ w - 1 - x / 2 = omega (arith, pow-suc 2 w) in
    let low : (2 ^ suc w - 1 - x) % 2 + x % 2 ≡ 1 = omega (arith, pow-suc 2 w, one-le-pow w 2) in
    let none_above : bit_and (x / 2) ((2 ^ suc w - 1 - x) / 2) ≡ 0 =
      rw half (bit_and-complement w (x / 2) (omega (arith, pow-suc 2 w))) in
    omega (arith, bit_and_step x (2 ^ suc w - 1 - x))

negate-pos : (w x : ℕ) → 0 < x → x < 2 ^ w → negate w x ≡ 2 ^ w - x
unfolding negate
negate-pos w x p h = mod-eq_of_lt (omega arith)

-- `x & -x` is the lowest bit set.
pub lowest_bit : (w x : ℕ) → 0 < x → x < 2 ^ w → bit_and x (negate w x) ≡ 2 ^ ffs w x
unfolding ffs
lowest_bit zero x p h = absurd (omega arith)
lowest_bit (suc w) x p h = rw (negate-pos (suc w) x p h) (elim (Bool-cases (x % 2 == 1)) [
  | inl odd ↦
      let low : x % 2 ≡ 1 = ground arith in
      let half : (2 ^ suc w - x) / 2 ≡ 2 ^ w - 1 - x / 2 = omega (arith, pow-suc 2 w) in
      let none_above : bit_and (x / 2) ((2 ^ suc w - x) / 2) ≡ 0 =
        rw half (bit_and-complement w (x / 2) (omega (arith, pow-suc 2 w))) in
      rw odd (omega (arith, bit_and_step x (2 ^ suc w - x), pow-suc 2 w))
  | inr even ↦
      let low : x % 2 ≡ 0 = ground arith in
      let half : (2 ^ suc w - x) / 2 ≡ 2 ^ w - x / 2 = omega (arith, pow-suc 2 w) in
      let p' : 0 < x / 2 = omega arith in
      let h' : x / 2 < 2 ^ w = omega (arith, pow-suc 2 w) in
      let above : bit_and (x / 2) ((2 ^ suc w - x) / 2) ≡ 2 ^ ffs w (x / 2) =
        rw (half, ← negate-pos w (x / 2) p' h') (lowest_bit w (x / 2) p' h') in
      rw even
        (omega (arith, bit_and_step x (2 ^ suc w - x), pow-suc 2 w, pow-suc 2 (ffs w (x / 2))))
])

pub ffs-lt : (w x : ℕ) → 0 < x → x < 2 ^ w → ffs w x < w
unfolding ffs
ffs-lt zero x p h = absurd (omega arith)
ffs-lt (suc w) x p h = ground (arith, pow-suc 2 w, ffs-lt w (x / 2))

pub ffs-pow : (w k : ℕ) → k < w → ffs w (2 ^ k) ≡ k
unfolding ffs
ffs-pow (suc w) zero h = refl
ffs-pow (suc w) (suc k) h =
    let half : 2 ^ suc k / 2 ≡ 2 ^ k = omega (arith, pow-suc 2 k) in
    ground (arith, pow-suc 2 k, ap (ffs w) half, ffs-pow w k)
ffs-pow zero k h = absurd (omega arith)

-- The lowest bit set is set, and no lower one is.
pub testbit-ffs :
    (w x i : ℕ) → 0 < x → x < 2 ^ w → (testbit x (ffs w x) ≡ 1) × (i < ffs w x → testbit x i ≡ 0)
unfolding testbit ffs
testbit-ffs zero x i p h = absurd (omega arith)
testbit-ffs (suc w) x zero p h = elim (Bool-cases (x % 2 == 1)) [
  | inl odd ↦ rw odd (ground arith, ground arith)
  | inr even ↦
      let ih = testbit-ffs w (x / 2) zero (ground arith) (omega (arith, pow-suc 2 w)) in
      rw even (ih.0, ground arith)
]
testbit-ffs (suc w) x (suc i) p h = elim (Bool-cases (x % 2 == 1)) [
  | inl odd ↦ rw odd (ground arith, ground arith)
  | inr even ↦
      let ih = testbit-ffs w (x / 2) i (ground arith) (omega (arith, pow-suc 2 w)) in
      rw even (ih.0, λ k. ih.1 (omega arith))
]
