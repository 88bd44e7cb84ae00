-- ===== src/Ecal/ReedSolomon.antt =====
-- include/ec/rs.hpp: the general code, apart from the layer, which does not use it. `data` gives what the
-- `k + p` buffers hold. An output of the decoding is always one of its sources, for which the library
-- does not say what it leaves there: `out` is what the output number `e` holds then.
use undergraduate_project.Shared.{
  leb, ℕ, zero, suc, ◌+◌, ◌≤◌, ◌<◌, ◌≡◌, refl, sym, ap, ◌∙◌, arith, ltb, ◌==◌, if◌then◌else◌, Bool,
  true, false, ◌||◌, ◌&&◌, List, [], ◌∷◌, Option, none, some, length, get_elem?, update, Bool-cases,
  Option-cases, inl, inr, subst,
}
use undergraduate_project.Ecal.Code.{Row, IsaL, encode_data}

-- The last `p` rows of the matrix, from row `i` on.
abbrev pub parity_rows : (isa : IsaL) → ℕ → ℕ → ℕ → ℕ → List Row
parity_rows isa n k i zero = []
parity_rows isa n k i (suc left) = isa.cauchy_row n k i ∷ parity_rows isa n k (suc i) left

unfoldable pub encode : (isa : IsaL) → ℕ → ℕ → List isa.Block → List isa.Block
encode isa k p src_data = encode_data isa (parity_rows isa (k + p) k k p) src_data

abbrev pub contains : ℕ → List ℕ → Bool
contains i [] = false
contains i (x ∷ xs) = x == i || contains i xs

-- `errIndex`: the ids from `i` on that are not among the sources, of the `left` that are left.
unfoldable pub missing : List ℕ → ℕ → ℕ → List ℕ
missing src_id i zero = []
missing src_id i (suc left) =
    let rest = missing src_id (suc i) left in if contains i src_id then rest else i ∷ rest

-- `recoverOutput`: the buffer `srcId[i]` for every missing `i`; `none` where this is outside of `srcId`.
unfoldable pub outputs : List ℕ → List ℕ → Option (List ℕ)
outputs src_id [] = some []
outputs src_id (i ∷ rest) = elim (get_elem? src_id i) [
  | none ↦ none
  | some t ↦ elim (outputs src_id rest) [ none ↦ none | some ts ↦ some (t ∷ ts) ]
]

-- The rows `errIndex[i]` of the inverse are inside of it.
unfoldable pub rows_inside : ℕ → List ℕ → Bool
rows_inside k [] = true
rows_inside k (i ∷ rest) = ltb i k && rows_inside k rest

module _ {ℓ} {Block : Type ℓ} where
  unfoldable pub fill : (ℕ → Block) → (ℕ → Block) → ℕ → List ℕ → ℕ → Block
  fill data_lines out e [] = data_lines
  fill data_lines out e (t ∷ ts) = fill (update data_lines t (out e)) out (suc e) ts

  -- `none` where the source reads outside of its arrays.
  unfoldable pub decode : ℕ → ℕ → (ℕ → Block) → List ℕ → (ℕ → Block) → Option (ℕ → Block)
  unfolding missing outputs rows_inside fill
  decode k p out src_id data_lines =
      let err_index = missing src_id 0 (k + p) in
      elim (outputs src_id err_index) [
        | none ↦ none
        | some ts ↦
            if rows_inside k err_index && leb (length err_index) p
            then some (fill data_lines out 0 ts)
            else none
      ]

  fill-apart :
      (data_lines out : ℕ → Block) (e i : ℕ) (ts : List ℕ)
      → contains i ts ≡ false
      → fill data_lines out e ts i ≡ data_lines i
  unfolding fill
  fill-apart data_lines out e i [] h = refl
  fill-apart data_lines out e i (t ∷ ts) h =
      fill-apart (update data_lines t (out e)) out (suc e) i ts (ground arith) ∙ ground arith

get_elem?-contains : (xs : List ℕ) (i t : ℕ) → get_elem? xs i ≡ some t → contains t xs ≡ true
get_elem?-contains [] i t h = cc
get_elem?-contains (x ∷ xs) zero t h = ground arith
get_elem?-contains (x ∷ xs) (suc i) t h = ground (arith, get_elem?-contains xs i t h)

get_elem?_outside : (xs : List ℕ) (i : ℕ) → length xs ≤ i → get_elem? xs i ≡ none
get_elem?_outside [] i h = refl
get_elem?_outside (x ∷ xs) zero h = absurd (omega arith)
get_elem?_outside (x ∷ xs) (suc i) h = get_elem?_outside xs i (omega arith)

-- Every output is a source.
outputs-contains :
    (src_id is ts : List ℕ) (i : ℕ)
    → outputs src_id is ≡ some ts
    → contains i src_id ≡ false
    → contains i ts ≡ false
unfolding outputs
outputs-contains src_id [] ts i h absent =
    let same : [] ≡ ts = ground (arith, h) in subst (λ xs. contains i xs ≡ false) same refl
outputs-contains src_id (j ∷ is) ts i h absent = elim (Option-cases (get_elem? src_id j)) [
  | inl beyond ↦ absurd (ground (arith, rw (outputs, beyond) at h))
  | inr (t, at) ↦ elim (Option-cases (outputs src_id is)) [
    | inl beyond ↦ absurd (ground (arith, rw (outputs, at, beyond) at h))
    | inr (ts', rest) ↦
        let same : t ∷ ts' ≡ ts = ground (arith, rw (outputs, at, rest) at h) in
        let later = outputs-contains src_id is ts' i rest absent in
        let other : (t == i) ≡ false = ground (arith, get_elem?-contains src_id j t at) in
        subst (λ xs. contains i xs ≡ false) same (rw other later)
  ]
]

-- An id that is missing and not that of data has no output.
outputs_beyond :
    (src_id : List ℕ) (j left i : ℕ)
    → length src_id ≤ i
    → contains i src_id ≡ false
    → j ≤ i
    → i < j + left
    → outputs src_id (missing src_id j left) ≡ none
unfolding missing outputs
outputs_beyond src_id j zero i beyond absent lo hi = absurd (omega arith)
outputs_beyond src_id j (suc left) i beyond absent lo hi = elim (Bool-cases (j == i)) [
  | inl same ↦
      let here : contains j src_id ≡ false = ground arith in
      let none_there : get_elem? src_id j ≡ none = get_elem?_outside src_id j (ground arith) in
      rw here (rw (outputs, none_there) refl)
  | inr other ↦
      let rest = outputs_beyond src_id (suc j) left i beyond absent (ground arith) (omega arith) in
      elim (Bool-cases (contains j src_id)) [
        | inl there ↦ rw there rest
        | inr not_there ↦ elim (Option-cases (get_elem? src_id j)) [
          | inl none_there ↦ rw not_there (rw (outputs, none_there) refl)
          | inr (t, at) ↦ rw not_there (rw (outputs, at, rest) refl)
        ]
      ]
]

-- For every id that is not among the `k` sources: where it is that of a parity block the decoding reads
-- outside of its arrays, and where the decoding comes to its end the buffer of that id holds what
-- it held before. So no buffer that is empty is ever filled.
pub decode_fills_nothing {ℓ} :
    {Block : Type ℓ} (k p : ℕ) (out data_lines : ℕ → Block) (src_id : List ℕ) (i : ℕ)
    → length src_id ≡ k
    → i < k + p
    → contains i src_id ≡ false
    → (k ≤ i → decode k p out src_id data_lines ≡ none)
      × ((filled : ℕ → Block)
          → decode k p out src_id data_lines ≡ some filled
          → filled i ≡ data_lines i)
unfolding decode
decode_fills_nothing k p out data_lines src_id i whole below absent =
    let err_index = missing src_id 0 (k + p) in
    (
      λ parity.
          let none_there =
            outputs_beyond src_id 0 (k + p) i (omega arith) absent (omega arith) (omega arith) in
          rw (decode, none_there) refl,
      λ filled h. elim (Option-cases (outputs src_id err_index)) [
        | inl beyond ↦ absurd (ground (arith, rw (decode, beyond) at h))
        | inr (ts, at) ↦ elim (Bool-cases (rows_inside k err_index && leb (length err_index) p)) [
          | inr past ↦ absurd (ground (arith, rw (decode, at, past) at h))
          | inl inside ↦
              let same : fill data_lines out 0 ts ≡ filled =
                ground (arith, rw (decode, at, inside) at h) in
              ap (λ f. f i) (sym same)
              ∙ fill-apart data_lines out 0 i ts (outputs-contains src_id _ ts i at absent)
        ]
      ],
    )
