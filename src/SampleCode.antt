-- ===== src/SampleCode.antt =====
-- Concrete erasure codes for the tests: two blocks of data and their parity, for blocks of one bit and for
-- blocks of 2048 bytes.
use undergraduate_project.Shared.{
  ℕ, zero, suc, ◌+◌, ◌*◌, ◌/◌, ◌%◌, ◌^◌, ◌<◌, ◌≡◌, refl, sym, ap, fun_ext, ◌∙◌, Bool, true, false,
  if◌then◌else◌, Option, none, some, List, [], ◌∷◌, map, arith, get_elem?, length, ◌==◌,
}
use undergraduate_project.Ecal.Code.{Row, IsaL, BlockBytes, Increasing, AllBelow}
use undergraduate_project.Ecal.Layout.{group_size, data_blocks, block_bytes}
use undergraduate_project.Client.TransferLaws.{take_all}
use undergraduate_project.Client.Bytes.{byte, bytes_at, length-bytes_at, take-drop-bytes_at}

abbrev parity_row : ℕ → ℕ → ℕ → Row
parity_row n k zero = 1 ∷ 0 ∷ []
parity_row n k (suc zero) = 0 ∷ 1 ∷ []
parity_row n k (suc (suc i)) = 1 ∷ 1 ∷ []

-- The inverse of two of the three rows, told apart by their coefficients.
abbrev invert_rows : List Row → ℕ → Option (List Row)
invert_rows ((zero ∷ _) ∷ _ ∷ []) k = some ((1 ∷ 1 ∷ []) ∷ (1 ∷ 0 ∷ []) ∷ [])
invert_rows ((suc _ ∷ _) ∷ (zero ∷ _) ∷ []) k = some ((1 ∷ 0 ∷ []) ∷ (0 ∷ 1 ∷ []) ∷ [])
invert_rows ((suc _ ∷ _) ∷ (suc _ ∷ _) ∷ []) k = some ((1 ∷ 0 ∷ []) ∷ (1 ∷ 1 ∷ []) ∷ [])
invert_rows _ k = none

-- What the sum of two blocks has to satisfy.
abbrev Cancels : {A : Type 0} → A → (A → A → A) → Type 0
Cancels {A} none_set xor =
    ((b : A) → xor b none_set ≡ b)
    × ((b c : A) → xor b (xor b c) ≡ c)
    × ((b c : A) → xor c (xor b c) ≡ b)

module _ {A : Type 0} (none_set : A) (xor : A → A → A) (cancels : Cancels none_set xor) where
  -- The sum of the blocks whose coefficient is not zero.
  abbrev combine_blocks : Row → List A → A
  combine_blocks (zero ∷ row) (b ∷ blocks) = combine_blocks row blocks
  combine_blocks (suc n ∷ row) (b ∷ blocks) = xor b (combine_blocks row blocks)
  combine_blocks _ _ = none_set

  pub parity_row-identity :
      (i : ℕ) (blocks : List A) (b : A)
      → length blocks ≡ data_blocks
      → i < data_blocks
      → get_elem? blocks i ≡ some b
      → combine_blocks (parity_row group_size data_blocks i) blocks ≡ b
  parity_row-identity i [] b l h e = absurd (omega arith)
  parity_row-identity i (x ∷ []) b l h e = absurd (omega arith)
  parity_row-identity i (x ∷ y ∷ z ∷ rest) b l h e = absurd (omega arith)
  parity_row-identity zero (x ∷ y ∷ []) b l h e = ground (arith, cancels.0 x)
  parity_row-identity (suc zero) (x ∷ y ∷ []) b l h e = ground (arith, cancels.0 y)
  parity_row-identity (suc (suc i)) (x ∷ y ∷ []) b l h e = absurd (omega arith)

  abbrev Undoes : List Row → List ℕ → Type 0
  Undoes inverse rows =
      (blocks : List A)
      → length blocks ≡ data_blocks
      → map
          (λ row.
            combine_blocks row
              (map (λ i. combine_blocks (parity_row group_size data_blocks i) blocks) rows))
          inverse
        ≡ blocks

  -- That a choice of rows can be inverted, and that the inverse undoes them.
  abbrev Inverts : List ℕ → Type 0
  Inverts rows =
      (inverse : List Row) × (invert_rows (map (parity_row group_size data_blocks) rows) data_blocks
        ≡ some inverse)
      × Undoes inverse rows

  zero_one : Undoes ((1 ∷ 0 ∷ []) ∷ (0 ∷ 1 ∷ []) ∷ []) (0 ∷ 1 ∷ [])
  zero_one (x ∷ y ∷ []) l = rw (cancels.0 x, cancels.0 y, cancels.0 x, cancels.0 y) refl
  zero_one [] l = absurd (omega arith)
  zero_one (x ∷ []) l = absurd (omega arith)
  zero_one (x ∷ y ∷ z ∷ rest) l = absurd (omega arith)

  zero_two : (q : ℕ) → Undoes ((1 ∷ 0 ∷ []) ∷ (1 ∷ 1 ∷ []) ∷ []) (0 ∷ suc (suc q) ∷ [])
  zero_two q (x ∷ y ∷ []) l = simp (cancels.0, cancels.1, cancels.2)
  zero_two q [] l = absurd (omega arith)
  zero_two q (x ∷ []) l = absurd (omega arith)
  zero_two q (x ∷ y ∷ z ∷ rest) l = absurd (omega arith)

  one_two : (q : ℕ) → Undoes ((1 ∷ 1 ∷ []) ∷ (1 ∷ 0 ∷ []) ∷ []) (1 ∷ suc (suc q) ∷ [])
  one_two q (x ∷ y ∷ []) l = simp (cancels.0, cancels.1, cancels.2)
  one_two q [] l = absurd (omega arith)
  one_two q (x ∷ []) l = absurd (omega arith)
  one_two q (x ∷ y ∷ z ∷ rest) l = absurd (omega arith)

  pub parity-Inverts :
      (rows : List ℕ)
      → length rows ≡ data_blocks
      → Increasing rows
      → AllBelow group_size rows
      → Inverts rows
  parity-Inverts [] l h a = absurd (omega arith)
  parity-Inverts (p ∷ []) l h a = absurd (omega arith)
  parity-Inverts (p ∷ q ∷ r ∷ rest) l h a = absurd (omega arith)
  parity-Inverts (zero ∷ zero ∷ []) l h a = absurd (omega (arith, h.0))
  parity-Inverts (zero ∷ suc zero ∷ []) l h a = (_, refl, zero_one)
  parity-Inverts (zero ∷ suc (suc q) ∷ []) l h a = (_, refl, zero_two q)
  parity-Inverts (suc zero ∷ suc (suc q) ∷ []) l h a = (_, refl, one_two q)
  parity-Inverts (suc p ∷ zero ∷ []) l h a = absurd (omega (arith, h.0))
  parity-Inverts (suc zero ∷ suc zero ∷ []) l h a = absurd (omega (arith, h.0))
  parity-Inverts (suc (suc p) ∷ suc q ∷ []) l h a = absurd (omega (arith, h.0, a.0, a.1.0))

  abbrev code_of : IsaL
  code_of = record {
    Block = A;
    zeros = none_set;
    combine = combine_blocks;
    cauchy_row = parity_row;
    invert_matrix = invert_rows;
    combine-cauchy_row = parity_row-identity;
    invert_cauchy = parity-Inverts;
  }

abbrev xor_bit : Bool → Bool → Bool
xor_bit true true = false
xor_bit true false = true
xor_bit false b = b

pub xor-false : (b : Bool) → xor_bit b false ≡ b
xor-false true = refl
xor-false false = refl

pub xor_left : (b c : Bool) → xor_bit b (xor_bit b c) ≡ c
xor_left true true = refl
xor_left true false = refl
xor_left false c = refl

pub xor_right : (b c : Bool) → xor_bit c (xor_bit b c) ≡ b
xor_right true true = refl
xor_right true false = refl
xor_right false true = refl
xor_right false false = refl

abbrev pub parity_code : IsaL
parity_code = code_of false xor_bit (xor-false, xor_left, xor_right)

-- A block of bytes: the bits of the byte at each place.
abbrev Bits : Type 0
Bits = ℕ → ℕ → Bool

abbrev xor_bits : Bits → Bits → Bits
xor_bits b c i k = xor_bit (b i k) (c i k)

pub xor_bits-Cancels : Cancels (λ i k. false) xor_bits
xor_bits-Cancels = (
  λ b. fun_ext (λ i. fun_ext (λ k. xor-false (b i k))),
  λ b c. fun_ext (λ i. fun_ext (λ k. xor_left (b i k) (c i k))),
  λ b c. fun_ext (λ i. fun_ext (λ k. xor_right (b i k) (c i k))),
)

abbrev pub byte_code : IsaL
byte_code = code_of (λ i k. false) xor_bits xor_bits-Cancels

abbrev bit : ℕ → ℕ → Bool
bit x zero = x % 2 == 1
bit x (suc k) = bit (x / 2) k

-- The number of the first `n` bits.
abbrev value : ℕ → (ℕ → Bool) → ℕ
value zero f = 0
value (suc n) f = (if f 0 then 1 else 0) + 2 * value n (λ k. f (suc k))

pub value_bounded : (n : ℕ) (f : ℕ → Bool) → value n f < 2 ^ n
value_bounded zero f = omega arith
value_bounded (suc n) f = let rest = value_bounded n (λ k. f (suc k)) in ground (arith, rest)

value-bit : (n x : ℕ) → x < 2 ^ n → value n (bit x) ≡ x
value-bit zero x h = omega arith
value-bit (suc n) x h = let rest = value-bit n (x / 2) (omega arith) in ground (arith, rest)

pub bytes_at-AllBelow :
    (n : ℕ) (f : ℕ → ℕ) (at len : ℕ) → ((i : ℕ) → f i < n) → AllBelow n (bytes_at f at len)
bytes_at-AllBelow n f at zero h = tt
bytes_at-AllBelow n f at (suc len) h = (h at, bytes_at-AllBelow n f (suc at) len h)

byte_bounded : (n : ℕ) (xs : List ℕ) (i : ℕ) → 0 < n → AllBelow n xs → byte xs i < n
byte_bounded n [] i h a = h
byte_bounded n (x ∷ xs) zero h a = a.0
byte_bounded n (x ∷ xs) (suc i) h a = byte_bounded n xs i h a.1

pub stored :
    (n : ℕ) (xs : List ℕ)
    → length xs ≡ n
    → AllBelow 256 xs
    → bytes_at (λ i. value 8 (bit (byte xs i))) 0 n ≡ xs
stored n xs e below =
    ap (λ f. bytes_at f 0 n)
      (fun_ext (λ i. value-bit 8 (byte xs i) (byte_bounded 256 xs i (omega arith) below)))
    ∙ sym (take-drop-bytes_at xs 0 n (omega arith))
    ∙ take_all n xs e

abbrev pub byte_view : BlockBytes byte_code
byte_view = record {
  bytes = λ b. bytes_at (λ i. value 8 (b i)) 0 block_bytes;
  block = λ xs i. bit (byte xs i);
  length-bytes = λ b. length-bytes_at (λ i. value 8 (b i)) 0 block_bytes;
  bytes-AllBelow =
      λ b. bytes_at-AllBelow 256 (λ i. value 8 (b i)) 0 block_bytes (λ i. value_bounded 8 (b i));
  bytes-block = λ xs e below. stored block_bytes xs e below;
}
