-- ===== src/Shared/Strings.antt =====
-- Byte strings (`std::string`), their equality, and `std::to_string` of an unsigned number.
use Prim.Native.Nat.{ℕ, zero, suc, ◌+◌, ◌-◌, ◌*◌, ◌/◌, ◌%◌, ◌≤◌, ◌<◌}
use Prim.Native.Char.{code}
use Prim.Native.String.{String}
use mathlib.Core.Path.{◌≡◌, refl, ap, sym, ◌∙◌}
use mathlib.Core.Logic.{◌↔◌, ◌≢◌, inl, inr}
use mathlib.Core.Bool.{Bool, true, false, ◌&&◌}
use mathlib.Core.List.{List, [], ◌∷◌, ◌++◌, foldl, foldl-append, tail}
use native.Mathlib.Omega.{arith}
use undergraduate_project.Shared.Tests.{◌==◌, ltb, if◌then◌else◌, Bool-cases}

abbrev pub Text : Type 0
Text = List ℕ

-- The bytes of an ASCII literal.
abbrev pub bytes : String → Text
bytes String.[] = []
bytes (String.◌∷◌ c s) = code c ∷ bytes s

unfoldable pub text_eq : Text → Text → Bool
text_eq [] [] = true
text_eq [] (y ∷ ys) = false
text_eq (x ∷ xs) [] = false
text_eq (x ∷ xs) (y ∷ ys) = x == y && text_eq xs ys

pub text_eq_iff : (s t : Text) → (text_eq s t ≡ true) ↔ (s ≡ t)
unfolding text_eq
text_eq_iff [] [] = ground arith
text_eq_iff [] (y ∷ ys) = ground arith
text_eq_iff (x ∷ xs) [] = ground arith
text_eq_iff (x ∷ xs) (y ∷ ys) = ground (arith, text_eq_iff xs ys)

pub text_eq_refl : (s : Text) → text_eq s s ≡ true
text_eq_refl s = (text_eq_iff s s).1 refl

pub text_eq_ne : (s t : Text) → s ≢ t → text_eq s t ≡ false
text_eq_ne s t h = elim (Bool-cases (text_eq s t)) [
  | inl e ↦ absurd (h ((text_eq_iff s t).0 e))
  | inr e ↦ e
]

-- The decimal digits of `n`; a number below the fuel never runs out of it.
unfoldable pub digits : ℕ → ℕ → Text
digits zero n = []
digits (suc f) n =
    let longer = digits f (n / 10) ++ (48 + n % 10) ∷ [] in
    if ltb n 10 then (48 + n) ∷ [] else longer

unfoldable pub to_string : ℕ → Text
unfolding digits
to_string n = digits (suc n) n

digit_value : ℕ → ℕ → ℕ
digit_value v c = v * 10 + (c - 48)

-- What a reader of decimal digits makes of a text.
pub decimal_value : Text → ℕ
decimal_value = foldl digit_value 0

decimal_value-digits : (f n : ℕ) → n < f → decimal_value (digits f n) ≡ n
unfolding digits decimal_value digit_value
decimal_value-digits zero n h = elim h [ ]
decimal_value-digits (suc f) n h = elim (Bool-cases (ltb n 10)) [
  | inl short ↦ rw short (omega arith)
  | inr long ↦
      rw (long, foldl-append) (ground (arith, decimal_value-digits f (n / 10) (ground arith)))
]

-- A printed number reads back.
pub decimal_value-to_string : (n : ℕ) → decimal_value (to_string n) ≡ n
unfolding to_string
decimal_value-to_string n = decimal_value-digits (suc n) n (omega arith)

pub to_string-injective : (m n : ℕ) → to_string m ≡ to_string n → m ≡ n
to_string-injective m n e =
    sym (decimal_value-to_string m) ∙ ap decimal_value e ∙ decimal_value-to_string n

-- No digit is the colon that ends the number in a key.
abbrev pub AllDigits : Text → Type 0
AllDigits [] = Unit
AllDigits (c ∷ s) = (48 ≤ c) × (c < 58) × AllDigits s

AllDigits-append : (s t : Text) → AllDigits s → AllDigits t → AllDigits (s ++ t)
AllDigits-append [] t hs ht = ht
AllDigits-append (c ∷ s) t hs ht = (hs.0, hs.1, AllDigits-append s t hs.2 ht)

digits-AllDigits : (f n : ℕ) → AllDigits (digits f n)
unfolding digits
digits-AllDigits zero n = tt
digits-AllDigits (suc f) n = elim (Bool-cases (ltb n 10)) [
  | inl short ↦ rw short (ground arith)
  | inr long ↦
      rw long (AllDigits-append (digits f (n / 10)) _ (digits-AllDigits f (n / 10)) (omega arith))
]

pub to_string-AllDigits : (n : ℕ) → AllDigits (to_string n)
unfolding to_string
to_string-AllDigits n = digits-AllDigits (suc n) n

-- The shape of every key of the stores: a decimal number, a colon, a name.
abbrev pub colon_key : Text → Text → Text
colon_key number name = number ++ (58 ∷ name)

pub colon_key-injective :
    (a b : Text) {x y : Text}
    → AllDigits a
    → AllDigits b
    → colon_key a x ≡ colon_key b y
    → (a ≡ b) × (x ≡ y)
colon_key-injective [] [] ha hb e = (refl, cc)
colon_key-injective [] (d ∷ b) ha hb e = absurd (ground arith)
colon_key-injective (c ∷ a) [] ha hb e = absurd (ground arith)
colon_key-injective (c ∷ a) (d ∷ b) {x} {y} ha hb e =
    let rest : colon_key a x ≡ colon_key b y = ap (λ (s : Text). tail s) e in
    let ih = colon_key-injective a b ha.2 hb.2 rest in (ground arith, ih.1)
