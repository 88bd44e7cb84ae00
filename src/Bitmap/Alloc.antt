-- ===== src/Bitmap/Alloc.antt =====
-- `allocBit` and `freeBit` of a `Bitmap` of `w` bits, each a loop around a compare-and-exchange.
-- What the other threads do shows in the values that the loop meets, one `Round` for each attempt.
use Prim.Native.Nat.{bit_and, bit_or}
use native.Mathlib.Nat.{pow-suc, one-le-pow}
use undergraduate_project.Shared.{
  ℕ, zero, suc, ◌-◌, ◌/◌, ◌^◌, ◌≤◌, ◌<◌, ◌≡◌, arith, ◌==◌, if◌then◌else◌, Bool, not, ◌&&◌, Option,
  none, some, List, [], ◌∷◌,
}
use undergraduate_project.Bitmap.Bits.{bit_and_step, bit_or_step, zero-bit_and}
use undergraduate_project.Bitmap.Words.{
  negate, complement, ffs, testbit, testbit-lt, testbit-bit_and, testbit-complement, testbit-pow,
  lowest_bit, ffs-lt, ffs-pow, testbit-ffs,
}

-- The value in the word when the exchange is tried, and whether a weak exchange fails all the same.
pub record Round : Type 0 where
  pub loaded : ℕ
  pub current : ℕ
  pub spurious : Bool

pub data Outcome : Type 0 where
  allocated : ℕ → ℕ → Outcome
  exhausted : Outcome
  running : Outcome

-- `std::numeric_limits<BitmapTy>::max()`: every slot is free.
abbrev pub all_free : ℕ → ℕ
all_free w = 2 ^ w - 1

unfoldable pub exchanges : ℕ → Round → Bool
exchanges origin r = r.current == origin && not r.spurious

-- `origin & -origin`, and what the exchange writes.
abbrev pub low_bit : ℕ → ℕ → ℕ
low_bit w origin = bit_and origin (negate w origin)

unfoldable pub claimed : ℕ → ℕ → ℕ
claimed w origin = bit_and origin (complement w (low_bit w origin))

-- A failed exchange loads the current value into `origin`. The list of rounds is the fuel: where it
-- ends while the loop goes on, the outcome is `running`.
unfoldable pub alloc_bit : ℕ → ℕ → List Round → Outcome
alloc_bit w origin [] = if origin == 0 then exhausted else running
alloc_bit w origin (r ∷ rounds) =
    let retry = alloc_bit w r.current rounds in
    if origin == 0
    then exhausted
    else if exchanges origin r
    then allocated (ffs w (low_bit w origin)) (claimed w origin)
    else retry

-- The word after `freeBit`; each attempt loads it anew.
unfoldable pub free_bit : ℕ → List Round → Option ℕ
free_bit idx [] = none
free_bit idx (r ∷ rounds) =
    let retry = free_bit idx rounds in
    if exchanges r.loaded r then some (bit_or r.loaded (2 ^ idx)) else retry

bit_and-le_fuel : (n a b : ℕ) → a ≤ n → bit_and a b ≤ a
bit_and-le_fuel zero a b h = let e : a ≡ 0 = omega arith in rw e (omega (arith, zero-bit_and b))
bit_and-le_fuel (suc n) zero b h = bit_and-le_fuel n zero b (omega arith)
bit_and-le_fuel (suc n) (suc a) b h =
    omega (arith, bit_and_step (suc a) b, bit_and-le_fuel n (suc a / 2) (b / 2) (omega arith))

pub bit_or-lt : (w a b : ℕ) → a < 2 ^ w → b < 2 ^ w → bit_or a b < 2 ^ w
bit_or-lt zero a b ha hb =
    let ea : a ≡ 0 = omega arith in let eb : b ≡ 0 = omega arith in rw (ea, eb) (omega arith)
bit_or-lt (suc w) a b ha hb = omega (
  arith,
  bit_or_step a b,
  pow-suc 2 w,
  bit_or-lt w (a / 2) (b / 2) (omega (arith, pow-suc 2 w)) (omega (arith, pow-suc 2 w)),
)

pub pow-lt-pow : (i w : ℕ) → i < w → 2 ^ i < 2 ^ w
pow-lt-pow zero (suc w) h = omega (arith, pow-suc 2 w, one-le-pow w 2)
pow-lt-pow (suc i) (suc w) h = omega (arith, pow-suc 2 i, pow-suc 2 w, pow-lt-pow i w (omega arith))
pow-lt-pow i zero h = absurd (omega arith)

-- What an exchange that succeeds on `x` has done: it took the lowest bit set and left the others.
pub record IsClaim (w x i x' : ℕ) : Type 0 where
  pub in_range : i < w
  pub was_free : testbit x i ≡ 1
  pub lowest : (j : ℕ) → j < i → testbit x j ≡ 0
  pub fits : x' < 2 ^ w
  pub after : (j : ℕ) → j < w → testbit x' j ≡ (if i == j then 0 else testbit x j)

pub claimed-IsClaim :
    (w x : ℕ) → 0 < x → x < 2 ^ w → IsClaim w x (ffs w (low_bit w x)) (claimed w x)
unfolding claimed
claimed-IsClaim w x p h =
    let k = ffs w x in
    let in_range = ffs-lt w x p h in
    let bit = lowest_bit w x p h in
    rw (bit, ffs-pow w k in_range)
      (record {
        in_range = in_range;
        was_free = (testbit-ffs w x 0 p h).0;
        lowest = λ j below. (testbit-ffs w x j p h).1 below;
        fits = omega (arith, bit_and-le_fuel x x (complement w (2 ^ k)) (omega arith));
        after = λ j below. ground (
          arith,
          testbit-bit_and x (complement w (2 ^ k)) j,
          testbit-complement w (2 ^ k) j (pow-lt-pow k w in_range) below,
          testbit-pow k j,
          testbit-lt x j,
        );
      })
