-- ===== src/Bitmap/Owners.antt =====
-- The slots of a bitmap and the threads that hold them, over every interleaving of the exchanges.
use Prim.Native.Nat.{bit_or}
use native.Mathlib.Nat.{one-le-pow}
use Prim.Native.Nat.{suc}
use undergraduate_project.Shared.{
  ℕ, ◌+◌, ◌^◌, ◌<◌, ◌≡◌, arith, ◌==◌, if◌then◌else◌, some, List, [], ◌∷◌, ◌++◌, Bool-cases, inl,
  inr, ap,
}
use undergraduate_project.Bitmap.Words.{
  ffs, testbit-bit_or, testbit-pow, testbit, testbit-zero, complement, testbit-complement,
}
use undergraduate_project.Bitmap.Alloc.{
  Round, allocated, all_free, alloc_bit, free_bit, exchanges, IsClaim, low_bit, claimed,
  claimed-IsClaim, bit_or-lt, pow-lt-pow,
}

-- How often a slot is among those that are held.
abbrev pub owners : ℕ → List ℕ → ℕ
owners slot [] = 0
owners slot (held ∷ rest) =
    let others = owners slot rest in if held == slot then suc others else others

owners-append :
    (slot : ℕ) (front back : List ℕ)
    → owners slot (front ++ back) ≡ owners slot front + owners slot back
owners-append slot [] back = omega arith
owners-append slot (held ∷ front) back = ground (arith, owners-append slot front back)

-- The word, and the slots that the threads have been given and not yet returned.
pub record Pool : Type 0 where
  pub word : ℕ
  pub held : List ℕ

-- The atomic changes: an exchange of `allocBit` that succeeds, and one of `freeBit` for a held slot.
pub data Step (w : ℕ) (s t : Pool) : Type 0 where
  take :
      (r : Round) (i : ℕ)
      → alloc_bit w s.word (r ∷ []) ≡ allocated i t.word
      → t.held ≡ i ∷ s.held
      → Step w s t
  give :
      (r : Round) (i : ℕ) (xs ys : List ℕ)
      → r.loaded ≡ s.word
      → free_bit i (r ∷ []) ≡ some t.word
      → s.held ≡ xs ++ i ∷ ys
      → t.held ≡ xs ++ ys
      → Step w s t

pub data Reach (w : ℕ) (s : Pool) : Pool → Type 0 where
  here : Reach w s s
  next : {t u : Pool} → Reach w s t → Step w t u → Reach w s u

-- A slot is free in the word or held once.
pub record IsConsistent (w : ℕ) (s : Pool) : Type 0 where
  pub fits : s.word < 2 ^ w
  pub once : (j : ℕ) → j < w → testbit s.word j + owners j s.held ≡ 1
  pub in_range : (j : ℕ) → 0 < owners j s.held → j < w

-- The first attempt of a loop takes its change from the word that it was tried on.
take-IsClaim :
    (w x i x' : ℕ) (r : Round)
    → x < 2 ^ w
    → alloc_bit w x (r ∷ []) ≡ allocated i x'
    → IsClaim w x i x'
unfolding alloc_bit
take-IsClaim w x i x' r h e = elim (Bool-cases (x == 0)) [
  | inl empty ↦ absurd (ground arith)
  | inr some_free ↦
      let slot : i ≡ ffs w (low_bit w x) = ground arith in
      let word : x' ≡ claimed w x = ground arith in
      rw (slot, word) (claimed-IsClaim w x (ground arith) h)
]

give_word :
    (i x : ℕ) (r : Round)
    → free_bit i (r ∷ []) ≡ some x
    → (r.current ≡ r.loaded) × (x ≡ bit_or r.loaded (2 ^ i))
unfolding free_bit exchanges
give_word i x r e = ground arith

Step-IsConsistent : (w : ℕ) {s t : Pool} → Step w s t → IsConsistent w s → IsConsistent w t
Step-IsConsistent w {s} {t} (take r i e h) c =
    let claim = take-IsClaim w s.word i t.word r c.fits e in
    record {
      fits = claim.fits;
      once = λ j k. rw h (ground (arith, claim.after j k, c.once j k, claim.was_free));
      in_range = λ j p. ground (arith, c.in_range j, claim.in_range, h);
    }
Step-IsConsistent w {s} {t} (give r i xs ys l e before after) c =
    let counts : (j : ℕ) → owners j s.held ≡ (if i == j then 1 else 0) + owners j t.held = λ j.
      rw (before, after) (ground (arith, owners-append j xs (i ∷ ys), owners-append j xs ys)) in
    let held : i < w = c.in_range i (ground (arith, counts i)) in
    let freed = give_word i t.word r e in
    record {
      fits = rw freed.1 (bit_or-lt w r.loaded (2 ^ i) (rw l c.fits) (pow-lt-pow i w held));
      once = λ j k.
          rw (freed.1, l)
            (ground
              (arith, testbit-bit_or s.word (2 ^ i) j, testbit-pow i j, c.once j k, counts j));
      in_range = λ j p. c.in_range j (omega (arith, counts j));
    }

fresh-IsConsistent : (w : ℕ) → IsConsistent w (record { word = all_free w; held = [] })
fresh-IsConsistent w = record {
  fits = omega (arith, one-le-pow w 2);
  once = λ j k.
      let same : complement w 0 ≡ all_free w = unfold complement in omega arith in
      omega (
        arith,
        ap (λ (x : ℕ). testbit x j) same,
        testbit-complement w 0 j (omega (arith, one-le-pow w 2)) k,
        testbit-zero j,
      );
  in_range = λ j p. absurd (omega arith);
}

Reach-IsConsistent : (w : ℕ) {s t : Pool} → IsConsistent w s → Reach w s t → IsConsistent w t
Reach-IsConsistent w c here = c
Reach-IsConsistent w c (next r st) = Step-IsConsistent w st (Reach-IsConsistent w c r)

-- From a fresh bitmap, whatever the threads do, every slot is either free in the word or held by
-- exactly one owner, and never both.
pub slots_never_shared :
    (w : ℕ) (t : Pool)
    → Reach w (record { word = all_free w; held = [] }) t
    → (j : ℕ) → j < w
    → testbit t.word j + owners j t.held ≡ 1
slots_never_shared w t r j h = (Reach-IsConsistent w (fresh-IsConsistent w) r).once j h
