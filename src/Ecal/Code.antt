-- ===== src/Ecal/Code.antt =====
-- Intel ISA-L, whose code is not in the repository: what the layer uses of its erasure codes.
-- A matrix is the list of its rows; `ec_init_tables` is taken together with the `ec_encode_data` that
-- its tables are for.
use undergraduate_project.Shared.{ℕ, ◌<◌, ◌≡◌, Option, some, List, [], ◌∷◌, map, get_elem?, length}
use undergraduate_project.Ecal.Layout.{data_blocks, group_size, block_bytes}

abbrev pub Row : Type 0
Row = List ℕ

abbrev pub Increasing : List ℕ → Type 0
Increasing [] = Unit
Increasing (x ∷ []) = Unit
Increasing (x ∷ y ∷ rest) = (x < y) × Increasing (y ∷ rest)

abbrev pub AllBelow : ℕ → List ℕ → Type 0
AllBelow n [] = Unit
AllBelow n (x ∷ xs) = (x < n) × AllBelow n xs

pub record IsaL : Type 1 where
  pub Block : Type 0
  -- a block of zero bytes
  pub zeros : Block
  -- one output block: the sum over GF(2^8) of the source blocks times the row's coefficients
  pub combine : Row → List Block → Block
  -- row `i` of `gf_gen_cauchy1_matrix` with `n` rows and `k` columns
  pub cauchy_row : ℕ → ℕ → ℕ → Row
  -- `gf_invert_matrix`, with `none` for a negative result
  pub invert_matrix : List Row → ℕ → Option (List Row)
  -- the first rows of the Cauchy matrix are the identity
  pub combine-cauchy_row :
      (i : ℕ) (blocks : List Block) (b : Block)
      → length blocks ≡ data_blocks
      → i < data_blocks
      → get_elem? blocks i ≡ some b
      → combine (cauchy_row group_size data_blocks i) blocks ≡ b
  -- any choice of as many of its rows as there are data blocks can be inverted, and the inverse
  -- undoes them
  pub invert_cauchy :
      (rows : List ℕ)
      → length rows ≡ data_blocks
      → Increasing rows
      → AllBelow group_size rows
      → (inverse : List Row) × (invert_matrix
            (map (cauchy_row group_size data_blocks) rows)
            data_blocks
          ≡ some inverse)
        × ((blocks : List Block)
            → length blocks ≡ data_blocks
            → map
                (λ row.
                  combine row
                    (map (λ i. combine (cauchy_row group_size data_blocks i) blocks) rows))
                inverse
              ≡ blocks)

-- `ec_encode_data` with the tables of `rows`.
abbrev pub encode_data : (isa : IsaL) → List Row → List isa.Block → List isa.Block
encode_data isa rows blocks = map (λ row. isa.combine row blocks) rows

-- `uint8_t data[2048]`: a block as its bytes.
pub record BlockBytes (isa : IsaL) : Type 0 where
  pub bytes : isa.Block → List ℕ
  pub block : List ℕ → isa.Block
  pub length-bytes : (b : isa.Block) → length (bytes b) ≡ block_bytes
  pub bytes-AllBelow : (b : isa.Block) → AllBelow 256 (bytes b)
  pub bytes-block :
      (xs : List ℕ) → length xs ≡ block_bytes → AllBelow 256 xs → bytes (block xs) ≡ xs
