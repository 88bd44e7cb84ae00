-- ===== src/Rdma/WorkId.antt =====
-- `COMBINE_I32`, `EXTRACT_X` and `EXTRACT_Y` of include/commons.hpp, which pack the peer and the task of a
-- work request. A shift to the right is a division, and the mask of the low half a remainder.
use Prim.Native.Nat.{bit_or}
use native.Mathlib.Nat.{pow-suc, mul_assoc}
use undergraduate_project.Shared.{
  ℕ, zero, suc, ◌+◌, ◌*◌, ◌/◌, ◌%◌, ◌^◌, ◌≤◌, ◌<◌, ◌≡◌, refl, sym, arith,
}
use undergraduate_project.Bitmap.Bits.{bit_or_step}

unfoldable pub combine_i32 : ℕ → ℕ → ℕ
combine_i32 x y = bit_or ((x * 2 ^ 32) % 2 ^ 64) y

unfoldable pub extract_x : ℕ → ℕ
extract_x u = (u / 2 ^ 32) % 2 ^ 32

unfoldable pub extract_y : ℕ → ℕ
extract_y u = u % 2 ^ 32

bit_or-zero : (n x : ℕ) → x ≤ n → bit_or x 0 ≡ x
bit_or-zero n zero h = refl
bit_or-zero zero (suc x) h = absurd (omega arith)
bit_or-zero (suc n) (suc x) h =
    omega (arith, bit_or_step (suc x) 0, bit_or-zero n (suc x / 2) (omega arith))

-- Two numbers whose digits do not meet.
bit_or-shifted : (k x y : ℕ) → y < 2 ^ k → bit_or (x * 2 ^ k) y ≡ x * 2 ^ k + y
bit_or-shifted zero x y h =
    let none_left : y ≡ 0 = omega arith in
    let whole : x * 2 ^ 0 ≡ x = omega arith in
    rw (none_left, whole) (omega (arith, bit_or-zero x x (omega arith)))
bit_or-shifted (suc k) x y h =
    let step = bit_or_step (x * 2 ^ suc k) y in
    let twice : x * 2 ^ suc k ≡ x * 2 ^ k * 2 = rw (pow-suc 2 k) (sym (mul_assoc x (2 ^ k) 2)) in
    let half : x * 2 ^ suc k / 2 ≡ x * 2 ^ k = omega (arith, twice) in
    let above : bit_or (x * 2 ^ suc k / 2) (y / 2) ≡ x * 2 ^ k + y / 2 =
      rw half (bit_or-shifted k x (y / 2) (omega (arith, pow-suc 2 k))) in
    omega (arith, step, above, half, twice)

-- The two halves of a packed id are the peer and the task.
pub extract-combine_i32 :
    (x y : ℕ)
    → x < 2 ^ 32
    → y < 2 ^ 32
    → (extract_x (combine_i32 x y) ≡ x) × (extract_y (combine_i32 x y) ≡ y)
unfolding combine_i32 extract_x extract_y
extract-combine_i32 x y hx hy =
    let packed : bit_or ((x * 2 ^ 32) % 2 ^ 64) y ≡ x * 2 ^ 32 + y =
      let fits : (x * 2 ^ 32) % 2 ^ 64 ≡ x * 2 ^ 32 = omega arith in
      rw fits (bit_or-shifted 32 x y hy) in
    rw packed (omega arith, omega arith)
