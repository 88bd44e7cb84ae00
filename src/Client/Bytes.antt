-- ===== src/Client/Bytes.antt =====
-- The bytes of a list by their places, for the buffers and the pages of a file; a byte beyond the end is 0.
use native.Mathlib.Nat.{div-add-mod, mul-add-div, div-eq_of_lt, mod-eq-sub-mul-div}
use undergraduate_project.Shared.{
  ℕ, zero, suc, ◌+◌, ◌-◌, ◌*◌, ◌/◌, ◌%◌, ◌≤◌, ◌<◌, ◌≡◌, refl, sym, ap, ◌∙◌, arith, ltb, leb,
  if◌then◌else◌, ◌&&◌, List, [], ◌∷◌, ◌++◌, take, drop, length, get_or, length-append, length-drop,
}
use undergraduate_project.Client.Transfer.{memcpy}
use undergraduate_project.Client.TransferLaws.{length-take}

abbrev pub byte : List ℕ → ℕ → ℕ
byte xs i = get_or xs i 0

-- The values of a function at `len` places from `at` on.
abbrev pub bytes_at : (ℕ → ℕ) → ℕ → ℕ → List ℕ
bytes_at f at zero = []
bytes_at f at (suc len) = f at ∷ bytes_at f (suc at) len

pub length-bytes_at : (f : ℕ → ℕ) (at len : ℕ) → length (bytes_at f at len) ≡ len
length-bytes_at f at zero = refl
length-bytes_at f at (suc len) = ap suc (length-bytes_at f (suc at) len)

byte-append :
    (xs ys : List ℕ) (i : ℕ)
    → byte (xs ++ ys) i ≡ (if ltb i (length xs) then byte xs i else byte ys (i - length xs))
byte-append [] ys i = ground arith
byte-append (x ∷ xs) ys zero = ground arith
byte-append (x ∷ xs) ys (suc i) = ground (arith, byte-append xs ys i)

pub byte-take : (n : ℕ) (xs : List ℕ) (i : ℕ) → i < n → byte (take n xs) i ≡ byte xs i
byte-take zero xs i h = absurd (omega arith)
byte-take (suc n) [] i h = refl
byte-take (suc n) (x ∷ xs) zero h = refl
byte-take (suc n) (x ∷ xs) (suc i) h = byte-take n xs i (omega arith)

pub byte-drop : (n : ℕ) (xs : List ℕ) (i : ℕ) → byte (drop n xs) i ≡ byte xs (n + i)
byte-drop zero xs i = ap (byte xs) (omega arith)
byte-drop (suc n) [] i = refl
byte-drop (suc n) (x ∷ xs) i =
    byte-drop n xs i ∙ sym (ap (byte (x ∷ xs)) (let e : suc n + i ≡ suc (n + i) = omega arith in e))

pub length-memcpy :
    (dst : List ℕ) (at : ℕ) (src : List ℕ)
    → at + length src ≤ length dst
    → length (memcpy dst at src) ≡ length dst
unfolding memcpy
length-memcpy dst at src h = omega (
  arith,
  length-append (take at dst) (src ++ drop (at + length src) dst),
  length-append src (drop (at + length src) dst),
  length-take at dst (omega arith),
  length-drop (at + length src) dst,
)

pub same_byte : (xs : List ℕ) (i j : ℕ) → i ≡ j → byte xs i ≡ byte xs j
same_byte xs i j e = ap (byte xs) e

pub bytes_at_eq : (f : ℕ → ℕ) (a b m n : ℕ) → a ≡ b → m ≡ n → bytes_at f a m ≡ bytes_at f b n
bytes_at_eq f a b m n e k = ap (λ x. bytes_at f x m) e ∙ ap (bytes_at f b) k

-- What `memcpy` copied, and what it left.
pub byte-memcpy :
    (dst : List ℕ) (at : ℕ) (src : List ℕ) (i : ℕ)
    → at + length src ≤ length dst
    → byte (memcpy dst at src) i
      ≡ (if leb at i && ltb i (at + length src) then byte src (i - at) else byte dst i)
unfolding memcpy
byte-memcpy dst at src i h = ground (
  arith,
  byte-append (take at dst) (src ++ drop (at + length src) dst) i,
  byte-append src (drop (at + length src) dst) (i - at),
  length-take at dst (omega arith),
  byte-take at dst i,
  byte-drop (at + length src) dst (i - at - length src),
  same_byte dst (at + length src + (i - at - length src)) i,
)

drop_cons : (xs : List ℕ) (at : ℕ) → at < length xs → drop at xs ≡ byte xs at ∷ drop (suc at) xs
drop_cons [] at h = absurd (omega arith)
drop_cons (x ∷ xs) zero h = refl
drop_cons (x ∷ xs) (suc at) h = drop_cons xs at (omega arith)

pub take-drop-bytes_at :
    (xs : List ℕ) (at len : ℕ)
    → at + len ≤ length xs
    → take len (drop at xs) ≡ bytes_at (byte xs) at len
take-drop-bytes_at xs at zero h = refl
take-drop-bytes_at xs at (suc len) h =
    ap (take (suc len)) (drop_cons xs at (omega arith))
    ∙ ap (◌∷◌ (byte xs at)) (take-drop-bytes_at xs (suc at) len (omega arith))

-- Two functions that agree on a range of places, each from a place of its own.
pub bytes_at-shift :
    (f g : ℕ → ℕ) (a b len : ℕ)
    → ((i : ℕ) → i < len → f (a + i) ≡ g (b + i))
    → bytes_at f a len ≡ bytes_at g b len
bytes_at-shift f g a b zero h = refl
bytes_at-shift f g a b (suc len) h =
    let first : f a ≡ g b =
      ap f (let e : a ≡ a + 0 = omega arith in e)
      ∙ h 0 (omega arith)
      ∙ ap g (let e : b + 0 ≡ b = omega arith in e) in
    ap (λ x. x ∷ bytes_at f (suc a) len) first
    ∙ ap (◌∷◌ (g b)) (
        bytes_at-shift f g (suc a) (suc b) len (λ i lt.
          ap f (let e : suc a + i ≡ a + suc i = omega arith in e)
          ∙ h (suc i) (omega arith)
          ∙ ap g (let e : b + suc i ≡ suc b + i = omega arith in e)))

pub bytes_at-append :
    (f : ℕ → ℕ) (at m n : ℕ) → bytes_at f at m ++ bytes_at f (at + m) n ≡ bytes_at f at (m + n)
bytes_at-append f at zero n = bytes_at_eq f (at + 0) at n (0 + n) (omega arith) (omega arith)
bytes_at-append f at (suc m) n =
    ap (◌∷◌ (f at)) (
      ap (λ a. bytes_at f (suc at) m ++ bytes_at f a n) (omega arith)
      ∙ bytes_at-append f (suc at) m n)
    ∙ bytes_at_eq f at at (suc (m + n)) (suc m + n) refl (omega arith)

-- A place inside of a block, from the place of another one.
pub same_block :
    (size offset i : ℕ)
    → 0 < size
    → offset % size + i < size
    → ((offset + i) / size ≡ offset / size) × ((offset + i) % size ≡ offset % size + i)
same_block size offset i h inside =
    let q = offset / size in
    let r = offset % size in
    let whole : size * q + (r + i) ≡ offset + i = omega (arith, div-add-mod offset size) in
    let quotient : (offset + i) / size ≡ q =
      ap (λ n. n / size) (sym whole)
      ∙ mul-add-div h q (r + i)
      ∙ ap (◌+◌ q) (div-eq_of_lt inside)
      ∙ (let e : q + 0 ≡ q = omega arith in e) in
    (
      quotient,
      mod-eq-sub-mul-div (offset + i) size
          ∙ ap (λ n. offset + i - size * n) quotient
          ∙ (let e : offset + i - size * q ≡ r + i = omega (arith, whole) in e),
    )

pub multiples_apart : (m a b : ℕ) → a < b → m * a + m ≤ m * b
multiples_apart m a b h = grind arith
