-- ===== src/Ecal/Blocks.antt =====
-- `readBlock` and `writeBlock`. The memory of the cluster is a function of the node and of the
-- distance from the start of its area; the node that runs the code is one of them, so a copy from or
-- to its own memory and an RDMA transfer are the same access. A transfer to a live peer is done when
-- its completion has been polled.
use undergraduate_project.Shared.{
  ℕ, zero, suc, ◌+◌, ◌%◌, ◌==◌, ltb, if◌then◌else◌, Bool, ◌||◌, ◌&&◌, Option, none, some, List, [],
  ◌∷◌, ◌++◌, map, get_or, set, length,
}
use undergraduate_project.Ecal.Code.{Row, IsaL, encode_data}
use undergraduate_project.Ecal.Layout.{data_blocks, group_size, get_data_pos, get_shift}

module _ (isa : IsaL) where
  abbrev pub Memory : Type 0
  Memory = ℕ → ℕ → isa.Block

  -- `Page`: the data of a page is its `K` blocks.
  pub record Page : Type 0 where
    pub page : List isa.Block
    pub index : ℕ

  abbrev pub encode_row : ℕ → Row
  encode_row i = isa.cauchy_row group_size data_blocks i

  -- The node that holds block `j` of a row, and an access to its memory.
  abbrev pub node_of : ℕ → ℕ → ℕ
  node_of start j = (j + start) % group_size

  unfoldable pub store : Memory → ℕ → ℕ → isa.Block → Memory
  store mem node shift blk n s = if n == node && s == shift then blk else mem n s

  -- The own memory is written directly, a live peer's by RDMA, and a dead peer is passed over.
  unfoldable pub write_to : (ℕ → Bool) → ℕ → Memory → ℕ → ℕ → isa.Block → Memory
  write_to alive my_id mem peer_id shift blk =
      if peer_id == my_id || alive peer_id then store mem peer_id shift blk else mem

  -- The parity blocks that `ec_encode_data` computes from the tables of the last `P` rows.
  unfoldable pub parity_of : List isa.Block → List isa.Block
  parity_of blocks = encode_data isa (encode_row 2 ∷ []) blocks

  -- The loop over the nodes of a group, on the blocks that are left: data, then parity.
  unfoldable pub write_loop : (ℕ → Bool) → ℕ → ℕ → ℕ → Memory → ℕ → List isa.Block → Memory
  write_loop alive my_id start shift mem i [] = mem
  write_loop alive my_id start shift mem i (blk ∷ rest) =
      let mem' = write_to alive my_id mem (node_of start i) shift blk in
      write_loop alive my_id start shift mem' (i + 1) rest

  unfoldable pub write_block : ℕ → (ℕ → Bool) → ℕ → Memory → Page → Memory
  unfolding write_loop parity_of
  write_block cluster_size alive my_id mem page =
      let pos = get_data_pos cluster_size page.index in
      write_loop alive my_id pos.start_node_id (get_shift pos.row) mem 0
        (page.page ++ parity_of page.page)

  -- `decodeIndex` and `errIndex`: the first `K` live nodes of the group, and the data blocks passed
  -- over on the way. The first argument counts the nodes left, the second those still to be found.
  unfoldable pub choose : (ℕ → Bool) → ℕ → ℕ → ℕ → ℕ → List ℕ × List ℕ
  choose alive start zero wanted j = ([], [])
  choose alive start (suc left) zero j = ([], [])
  choose alive start (suc left) (suc wanted) j =
      let found = choose alive start left wanted (j + 1) in
      let missed = choose alive start left (suc wanted) (j + 1) in
      if alive (node_of start j)
      then (j ∷ found.0, found.1)
      else (missed.0, if ltb j data_blocks then j ∷ missed.1 else missed.1)

  -- Block `i` of the sources goes to place `decodeIndex[i]` of the page, if that is a data block.
  unfoldable pub copy_intact : List isa.Block → List ℕ → List isa.Block → List isa.Block
  copy_intact page (j ∷ js) (b ∷ bs) =
      copy_intact (if ltb j data_blocks then set page j b else page) js bs
  copy_intact page _ _ = page

  -- The recovered blocks go to the places `errIndex`.
  unfoldable pub copy_recovered : List isa.Block → List ℕ → List isa.Block → List isa.Block
  copy_recovered page (j ∷ js) (b ∷ bs) = copy_recovered (set page j b) js bs
  copy_recovered page _ _ = page

  -- Perform decode. Without an inverse the page keeps what was intact.
  unfoldable pub decode : List isa.Block → List ℕ → List ℕ → List isa.Block → List isa.Block
  unfolding copy_recovered
  decode page decode_index err_index sources =
      elim (isa.invert_matrix (map encode_row decode_index) data_blocks) [
        | none ↦ page
        | some inverse ↦
            copy_recovered page err_index
              (encode_data isa (map (λ j. get_or inverse j []) err_index) sources)
      ]

  abbrev pub blank : List isa.Block
  blank = isa.zeros ∷ isa.zeros ∷ []

  -- With fewer than `K` live nodes the rest of `decodeIndex` is read uninitialised: `none`.
  unfoldable pub read_block : ℕ → (ℕ → Bool) → Memory → ℕ → Option Page
  unfolding choose copy_intact decode
  read_block cluster_size alive mem index =
      let pos = get_data_pos cluster_size index in
      let shift = get_shift pos.row in
      let chosen = choose alive pos.start_node_id group_size data_blocks 0 in
      let sources = map (λ j. mem (node_of pos.start_node_id j) shift) chosen.0 in
      let intact = copy_intact blank chosen.0 sources in
      let done = if length chosen.1 == 0 then intact else decode intact chosen.0 chosen.1 sources in
      if length chosen.0 == data_blocks then some (record { page = done; index = index }) else none
