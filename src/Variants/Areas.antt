-- ===== src/Variants/Areas.antt =====
-- The memory of a cluster in blocks of 2048 bytes, and transfers of whole blocks that lie side by side.
use undergraduate_project.Shared.{
  ℕ, ◌+◌, ◌*◌, ◌^◌, ◌≤◌, ◌<◌, ◌≡◌, ◌≢◌, ◌⊎◌, arith, ◌==◌, if◌then◌else◌, ◌&&◌, List, [], ◌∷◌,
}
use undergraduate_project.Ecal.Layout.{block_bytes, get_shift}

abbrev pub Area : Type 0 → Type 0
Area B = ℕ → ℕ → B

-- `memcpy` to the own memory, or an RDMA write that is done: the blocks one after another.
unfoldable pub put_all : {B : Type 0} → Area B → ℕ → ℕ → List B → Area B
put_all mem node shift [] = mem
put_all {B} mem node shift (b ∷ bs) =
    let mem' : Area B = λ n s. if n == node && s == shift then b else mem n s in
    put_all mem' node (shift + block_bytes) bs

-- The two blocks of a page.
abbrev pub get_two : {B : Type 0} → Area B → ℕ → ℕ → List B
get_two mem node shift = mem node shift ∷ mem node (shift + block_bytes) ∷ []

-- A page of two blocks that was put is got.
pub get_two-put_all :
    {B : Type 0} (mem : Area B) (node shift : ℕ) (b c : B)
    → get_two (put_all mem node shift (b ∷ c ∷ [])) node shift ≡ b ∷ c ∷ []
unfolding put_all
get_two-put_all mem node shift b c = ground arith

-- Blocks of another node, or two blocks away at least, stay.
pub get_two_aside :
    {B : Type 0} (mem : Area B) (node shift other place : ℕ) (b c : B)
    → (other ≢ node) ⊎ (place + 2 * block_bytes ≤ shift) ⊎ (shift + 2 * block_bytes ≤ place)
    → get_two (put_all mem node shift (b ∷ c ∷ [])) other place ≡ get_two mem other place
unfolding put_all
get_two_aside mem node shift other place b c apart = ground (arith, apart)

-- The same for a transfer of the first block alone.
pub get_two-put_one :
    {B : Type 0} (mem : Area B) (node shift : ℕ) (b : B)
    → get_two (put_all mem node shift (b ∷ [])) node shift ≡ b ∷ mem node (shift + block_bytes) ∷ []
unfolding put_all
get_two-put_one mem node shift b = ground arith

pub get_two_aside_one :
    {B : Type 0} (mem : Area B) (node shift other place : ℕ) (b : B)
    → (other ≢ node) ⊎ (place + 2 * block_bytes ≤ shift) ⊎ (shift + 2 * block_bytes ≤ place)
    → get_two (put_all mem node shift (b ∷ [])) other place ≡ get_two mem other place
unfolding put_all
get_two_aside_one mem node shift other place b apart = ground (arith, apart)

-- The place of the page in row `row`, where a page takes two blocks.
pub page_place : (row : ℕ) → row * 4096 < 2 ^ 64 → get_shift (row * 2) ≡ row * 4096
unfolding get_shift
page_place row h = omega arith
