-- ===== src/Variants/TypeTwo.antt =====
-- `ECAL2` of src/test/ec_type2.cpp: a page is one block of its row, and the parity of a row is computed
-- from the two pages in the memories. The blocks here are of 4096 bytes.
use undergraduate_project.Shared.{
  ℕ, zero, suc, ◌+◌, ◌*◌, ◌/◌, ◌%◌, ◌^◌, ◌==◌, if◌then◌else◌, Bool, ◌⊎◌, inl, inr, Option, none,
  some, List, [], ◌∷◌, map, length,
}
use undergraduate_project.Config.Start.{
  Machine, Globals, Refusal, no_command, load_memory, rpc_start, layer_capacity,
}
use undergraduate_project.Ecal.Code.{IsaL}
use undergraduate_project.Ecal.Layout.{data_blocks, group_size}
use undergraduate_project.Ecal.Blocks.{Memory, encode_row, node_of, write_to}

-- `allocTable->getShift` for whole pages.
unfoldable pub page_shift : ℕ → ℕ
page_shift row = (row * 4096) % 2 ^ 64

-- `ECAL2::DataPosition`.
pub record Position : Type 0 where
  pub row : ℕ
  pub node_id : ℕ

unfoldable pub get_block_position : ℕ → Position
get_block_position index = record {
  row = index / group_size;
  node_id = (index % data_blocks + index / group_size % group_size) % group_size;
}

-- In pages; `none` where the constructor exits, for any cluster but one of three nodes.
unfoldable pub capacity : ℕ → ℕ → Option ℕ
capacity cluster_size area_size =
    if cluster_size == group_size
    then some (cluster_size / group_size * data_blocks * (area_size / 4096))
    else none

-- `ECAL2::ECAL2`: the interface for calls loads the cluster.
unfoldable pub start : Machine → Globals → Refusal ⊎ (ℕ × Globals)
unfolding load_memory rpc_start layer_capacity capacity
start m g = elim g.cmd_conf [
  | none ↦ inl no_command
  | some conf ↦ elim (load_memory m conf g) [
    | inl why ↦ inl why
    | inr g' ↦ elim (rpc_start m g') [
      | inl why ↦ inl why
      | inr g'' ↦ elim (layer_capacity capacity g'') [
        | inl why ↦ inl why
        | inr size ↦ inr (size, g'')
      ]
    ]
  ]
]

module _ (isa : IsaL) where
  -- `decodeIndex`: the first two live nodes of the row. The first argument counts the nodes left.
  unfoldable pub choose : (ℕ → Bool) → ℕ → ℕ → ℕ → ℕ → List ℕ
  choose alive shift zero wanted j = []
  choose alive shift (suc left) zero j = []
  choose alive shift (suc left) (suc wanted) j =
      let found = choose alive shift left wanted (j + 1) in
      let missed = choose alive shift left (suc wanted) (j + 1) in
      if alive (node_of isa shift j) then j ∷ found else missed

  -- The decoding of a page whose node is lost. The loop counts a node before it stores the node's source, so the
  -- first source is a pointer that is not set: `none` where it is used. Without an inverse the page stays.
  unfoldable pub decode : isa.Block → List ℕ → Option isa.Block
  decode page decode_index =
      elim (isa.invert_matrix (map (encode_row isa) decode_index) data_blocks) [
        | none ↦ some page
        | some inverse ↦ none
      ]

  -- The own block, or the region after a read into it was posted and a completion polled. The completion can be one
  -- that `writeBlock` left: the region is `filled` by then, or has what it `held`. With fewer than two live nodes
  -- `decodeIndex` is read uninitialised: `none`.
  unfoldable pub read_block :
      (ℕ → Bool) → ℕ → Bool → Memory isa → isa.Block → ℕ → isa.Block → Option isa.Block
  unfolding decode
  read_block alive my_id filled mem held index page =
      let pos = get_block_position index in
      let there = mem pos.node_id (page_shift pos.row) in
      let shift = pos.row % group_size in
      let chosen = choose alive shift group_size data_blocks 0 in
      if alive pos.node_id
      then some (if pos.node_id == my_id then there else if filled then there else held)
      else if length chosen == data_blocks
      then decode page chosen
      else none

  -- A source of the parity: the own block, or a region into which a read was posted and not polled, with what it
  -- holds at that time.
  unfoldable pub source : ℕ → Memory isa → (ℕ → isa.Block) → ℕ → ℕ → isa.Block
  source my_id mem region place node = if node == my_id then mem node place else region node

  -- The parity goes to the third node. The data of the page is not used by the code.
  unfoldable pub write_block :
      (ℕ → Bool) → ℕ → Memory isa → (ℕ → isa.Block) → ℕ → isa.Block → Memory isa
  unfolding source
  write_block alive my_id mem region index page =
      let pos = get_block_position index in
      let place = page_shift pos.row in
      let shift = pos.row % group_size in
      let sources = map (λ j. source my_id mem region place (node_of isa shift j)) (0 ∷ 1 ∷ []) in
      let parity = isa.combine (encode_row isa 2) sources in
      write_to isa alive my_id mem (node_of isa shift 2) place parity
