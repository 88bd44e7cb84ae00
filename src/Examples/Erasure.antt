-- ===== src/Examples/Erasure.antt =====
-- Tests of src/ecal.cpp: a page of a cluster of three nodes whose first node is lost.
use undergraduate_project.Shared.{
  ℕ, ◌+◌, ◌≤◌, ◌≡◌, refl, Bool, true, false, ◌==◌, not, some, none, List, [], ◌∷◌, arith,
}
use undergraduate_project.Ecal.Refinement.{Write}
use undergraduate_project.Ecal.ReedSolomon.{decode, decode_fills_nothing}
use undergraduate_project.SampleCode.{parity_code}

-- Nodes 1 and 2 take part in every write; node 0 is lost in between.
abbrev others : ℕ → Bool
others n = not (n == 0)

abbrev two_writes : List (Write parity_code)
two_writes =
    (record { index = 7; first = true; second = false; writer = 1; alive = λ n. true })
    ∷ (record { index = 3; first = true; second = true; writer = 2; alive = others })
    ∷ []

-- Block 0 is missing, and its place keeps what it held.
decode_fills_nothing_example :
    (2 ≤ 0 → decode 2 1 (λ e. 9) (1 ∷ 2 ∷ []) (λ j. j + 4) ≡ none)
    × ((filled : ℕ → ℕ)
        → decode 2 1 (λ e. 9) (1 ∷ 2 ∷ []) (λ j. j + 4) ≡ some filled
        → filled 0 ≡ 4)
decode_fills_nothing_example =
    decode_fills_nothing 2 1 (λ e. 9) (λ j. j + 4) (1 ∷ 2 ∷ []) 0 refl (omega arith) refl
