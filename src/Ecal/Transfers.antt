-- ===== src/Ecal/Transfers.antt =====
-- `readBlock` and `writeBlock` of src/ecal.cpp with the buffers that they borrow from the socket: every
-- transfer goes through a region of the peer. One thread runs; the bitmaps of the regions are its own.
use undergraduate_project.Shared.{
  ℕ, ◌+◌, ◌==◌, if◌then◌else◌, Bool, Option, none, some, ◌>>=◌, List, [], ◌∷◌, ◌++◌, map, length,
  update,
}
use undergraduate_project.Bitmap.GivenBack.{alone}
use undergraduate_project.Rdma.Regions.{get_region, free_region}
use undergraduate_project.Ecal.Code.{IsaL}
use undergraduate_project.Ecal.Layout.{data_blocks, group_size, get_data_pos, get_shift}
use undergraduate_project.Ecal.Blocks.{
  Memory, Page, encode_row, node_of, store, parity_of, choose, copy_intact, decode, blank,
}

-- `recoverSrc`: a block of the own memory, or the address of a region of a peer.
pub data Source : Type 0 where
  own_block : Source
  region : ℕ → ℕ → Source

module _ (isa : IsaL) where
  -- The bitmap of each peer's regions of one kind, and the block at each address.
  pub record Regions : Type 0 where
    pub word : ℕ → ℕ
    pub buffer : ℕ → ℕ → isa.Block

  abbrev pub put : Regions → ℕ → ℕ → isa.Block → Regions
  put s peer addr blk = record s { buffer = update s.buffer peer (update (s.buffer peer) addr blk) }

module _ (isa : IsaL) (base : ℕ → ℕ) where
  -- `none` while no region is free: the loop waits for another thread.
  unfoldable pub take_region : Regions isa → ℕ → Option (ℕ × Regions isa)
  take_region s peer = get_region (base peer) ((s.word peer, alone (s.word peer)) ∷ []) >>= λ got.
      some (got.0, record s { word = update s.word peer got.1 })

  unfoldable pub give_region : Regions isa → ℕ → ℕ → Option (Regions isa)
  give_region s peer addr = free_region (base peer) addr (alone (s.word peer)) >>= λ word.
      some (record s { word = update s.word peer word })

  -- One block of a row, and all that are chosen.
  unfoldable pub fetch : ℕ → Memory isa → ℕ → Regions isa → ℕ → Option (Source × Regions isa)
  fetch my_id mem shift s peer =
      let got = take_region s peer in
      if peer == my_id
      then some (own_block, s)
      else (got >>= λ g. some (region peer g.0, put isa g.1 peer g.0 (mem peer shift)))

  unfoldable pub fetch_all :
      ℕ → Memory isa → ℕ → ℕ → Regions isa → List ℕ → Option (List Source × Regions isa)
  unfolding fetch
  fetch_all my_id mem start shift s [] = some ([], s)
  fetch_all my_id mem start shift s (j ∷ js) =
      fetch my_id mem shift s (node_of isa start j) >>= λ first.
      fetch_all my_id mem start shift first.1 js >>= λ rest. some (first.0 ∷ rest.0, rest.1)

  abbrev pub contents : ℕ → Memory isa → ℕ → Regions isa → Source → isa.Block
  contents my_id mem shift s own_block = mem my_id shift
  contents my_id mem shift s (region peer addr) = s.buffer peer addr

  unfoldable pub release : Regions isa → List Source → Option (Regions isa)
  unfolding give_region
  release s [] = some s
  release s (own_block ∷ rest) = release s rest
  release s (region peer addr ∷ rest) = give_region s peer addr >>= λ s'. release s' rest

  -- Where the inverse is missing the function returns before the regions are given back.
  unfoldable pub read_through :
      ℕ → (ℕ → Bool) → ℕ → Memory isa → Regions isa → ℕ → Option (Page isa × Regions isa)
  unfolding fetch_all release
  read_through cluster_size alive my_id mem s index =
      let pos = get_data_pos cluster_size index in
      let shift = get_shift pos.row in
      let chosen = choose isa alive pos.start_node_id group_size data_blocks 0 in
      let result = fetch_all my_id mem pos.start_node_id shift s chosen.0 >>= λ got.
      (let sources = map (contents my_id mem shift got.1) got.0 in
        let intact = copy_intact isa (blank isa) chosen.0 sources in
        let page : List isa.Block → Page isa = λ blocks. record { page = blocks; index = index } in
        let given = release got.1 got.0 in
        let decoded = page (decode isa intact chosen.0 chosen.1 sources) in
        let finish : Option (Page isa × Regions isa) =
          elim (isa.invert_matrix (map (encode_row isa) chosen.0) data_blocks) [
            | none ↦ some (decoded, got.1)
            | some inverse ↦ given >>= λ s'. some (decoded, s')
          ] in
        if length chosen.1 == 0 then (given >>= λ s'. some (page intact, s')) else finish) in
      if length chosen.0 == data_blocks then result else none

  -- A block goes through a write region, which is given back when the write is done.
  unfoldable pub send_block :
      (ℕ → Bool)
      → ℕ
      → Memory isa
      → Regions isa
      → ℕ
      → ℕ
      → isa.Block
      → Option (Memory isa × Regions isa)
  send_block alive my_id mem s peer_id shift blk =
      let sent = take_region s peer_id >>= λ got.
      (let filled = put isa got.1 peer_id got.0 blk in
        give_region filled peer_id got.0 >>= λ s'.
        some (store isa mem peer_id shift (filled.buffer peer_id got.0), s')) in
      if peer_id == my_id
      then some (store isa mem peer_id shift blk, s)
      else if alive peer_id
      then sent
      else some (mem, s)

  unfoldable pub send_loop :
      (ℕ → Bool)
      → ℕ
      → ℕ
      → ℕ
      → Memory isa
      → Regions isa
      → ℕ
      → List isa.Block
      → Option (Memory isa × Regions isa)
  unfolding send_block
  send_loop alive my_id start shift mem s i [] = some (mem, s)
  send_loop alive my_id start shift mem s i (blk ∷ rest) =
      send_block alive my_id mem s (node_of isa start i) shift blk >>= λ r.
      send_loop alive my_id start shift r.0 r.1 (i + 1) rest

  unfoldable pub write_through :
      ℕ → (ℕ → Bool) → ℕ → Memory isa → Regions isa → Page isa → Option (Memory isa × Regions isa)
  unfolding send_loop
  write_through cluster_size alive my_id mem s page =
      let pos = get_data_pos cluster_size page.index in
      send_loop alive my_id pos.start_node_id (get_shift pos.row) mem s 0
        (page.page ++ parity_of isa page.page)
