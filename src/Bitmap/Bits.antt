-- ===== src/Bitmap/Bits.antt =====
-- The binary digits of `&` and `|`, from the digit recursion that the native operations stand for.
use Prim.Native.Nat.{min, max, digits, bitwise, bit_and, bit_or, bit_and-bitwise, bit_or-bitwise}
use undergraduate_project.Shared.{ℕ, zero, suc, ◌+◌, ◌*◌, ◌/◌, ◌%◌, ◌≤◌, ◌≡◌, refl, arith}

module _ (last : ℕ → ℕ) (op : ℕ → ℕ → ℕ) where
  -- With fuel for all its digits, the recursion gives the same word as with any other such fuel.
  settled :
      (x y few many : ℕ) → x ≤ few → x ≤ many → digits last op few x y ≡ digits last op many x y
  settled zero y zero zero h k = refl
  settled zero y zero (suc many) h k = refl
  settled zero y (suc few) zero h k = refl
  settled zero y (suc few) (suc many) h k = refl
  settled (suc x) y zero many h k = absurd (omega arith)
  settled (suc x) y (suc few) zero h k = absurd (omega arith)
  settled (suc x) y (suc few) (suc many) h k =
      rw (settled (suc x / 2) (y / 2) few many (omega arith) (omega arith))

  lowest_digit :
      (x y : ℕ)
      → bitwise last op (suc x) y ≡ bitwise last op (suc x / 2) (y / 2) * 2 + op (suc x % 2) (y % 2)
  lowest_digit x y =
      let half = suc x / 2 in omega (arith, settled half (y / 2) x half (omega arith) (omega arith))

pub bit_or_step : (x y : ℕ) → bit_or x y ≡ bit_or (x / 2) (y / 2) * 2 + max (x % 2) (y % 2)
bit_or_step (suc x) y = simp bit_or-bitwise (lowest_digit (λ rest. rest) max x y)
bit_or_step zero y = simp bit_or-bitwise (omega arith)

pub bit_and_step : (x y : ℕ) → bit_and x y ≡ bit_and (x / 2) (y / 2) * 2 + min (x % 2) (y % 2)
bit_and_step (suc x) y = simp bit_and-bitwise (lowest_digit (λ rest. 0) min x y)
bit_and_step zero y = simp bit_and-bitwise (omega arith)

pub zero-bit_and : (b : ℕ) → bit_and 0 b ≡ 0
zero-bit_and b = bit_and-bitwise 0 b
