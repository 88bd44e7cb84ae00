-- ===== src/Examples/Variants.antt =====
-- Tests of the layers of src/test.
use undergraduate_project.Shared.{
  ℕ, ◌≡◌, refl, arith, Bool, true, false, not, ◌==◌, some, List, [], ◌∷◌,
}
use undergraduate_project.Variants.Areas.{Area}
use undergraduate_project.Variants.Replicated
use undergraduate_project.Variants.Replicated.{Write, run_writes, replicas_implement_array}
use undergraduate_project.Variants.TypeTwo
use undergraduate_project.Variants.TypeTwoLaws.{written_page_is_lost}
use undergraduate_project.SampleCode.{parity_code}

abbrev all_zero : Area ℕ
all_zero n s = 0

abbrev everyone : ℕ → Bool
everyone n = true

abbrev all_but_0 : ℕ → Bool
all_but_0 n = not (n == 0)

abbrev two_writes : List (Write ℕ)
two_writes =
    record { index = 3; first = 1; second = 2; writer = 1; alive = everyone }
    ∷ record { index = 3; first = 5; second = 6; writer = 0; alive = all_but_0 }
    ∷ []

replicas_implement_array_example :
    Replicated.read_block true 2 (run_writes ℕ (0 ∷ 1 ∷ 2 ∷ []) all_zero two_writes) [] 3
    ≡ 5 ∷ 6 ∷ []
replicas_implement_array_example =
    replicas_implement_array (1 ∷ 2 ∷ []) all_zero (λ j. (0, 0)) 8 two_writes true 2 3 []
      (omega arith) ((omega arith, refl), ((omega arith, refl), tt)) (λ index below. refl)
      (omega arith) refl

-- The node 2 reads the page 0, which the node 0 has.
written_page_is_lost_example :
    TypeTwo.read_block parity_code everyone 2 true
      (TypeTwo.write_block parity_code everyone 1 (λ n s. n == 1) (λ n. true) 0 true)
      true
      0
      true
    ≡ some false
unfolding TypeTwo.get_block_position
written_page_is_lost_example =
    written_page_is_lost parity_code everyone everyone 1 2 true (λ n s. n == 1) (λ n. true) 0 true
      true true refl refl
