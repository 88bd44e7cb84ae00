-- ===== src/Ecal/Layout.antt =====
-- Where a page lies: `getDataPos`, `getBlockShift` and the capacity, with the constants of the layer.
use undergraduate_project.Shared.{
  ℕ, ◌+◌, ◌*◌, ◌/◌, ◌%◌, ◌^◌, ◌≤◌, ◌<◌, ◌≡◌, ◌≢◌, arith, ◌==◌, if◌then◌else◌, Option, none, some,
}

abbrev pub data_blocks : ℕ
data_blocks = 2

abbrev pub parity_blocks : ℕ
parity_blocks = 1

abbrev pub group_size : ℕ
group_size = 3

abbrev pub page_bytes : ℕ
page_bytes = 4096

-- `BlockTy::size`, `Block4K::capacity / K`.
abbrev pub block_bytes : ℕ
block_bytes = 2048

-- `BlockPool::getCapacity`: the whole blocks in a memory area.
unfoldable pub pool_length : ℕ → ℕ
pool_length area_size = area_size / block_bytes

-- `BlockPool::getShift`: the distance of a block from the start of the area, as a `uint64_t`.
unfoldable pub get_shift : ℕ → ℕ
get_shift index = (index * block_bytes) % 2 ^ 64

pub record DataPosition : Type 0 where
  pub row : ℕ
  pub start_node_id : ℕ

-- Division by a zero `pagePerRow` is undefined; the constructor refuses a cluster that is no multiple
-- of `N`, so this is the empty cluster.
unfoldable pub get_data_pos : ℕ → ℕ → DataPosition
get_data_pos cluster_size index = record {
  row = index / (cluster_size / group_size);
  start_node_id = 0;
}

-- The capacity in pages that the constructor computes; `none` where it exits.
unfoldable pub cluster_capacity : ℕ → ℕ → Option ℕ
unfolding pool_length
cluster_capacity cluster_size area_size =
    if cluster_size % group_size == 0
    then some (
        cluster_size
        / group_size
        * data_blocks
        * pool_length area_size
        / (page_bytes / block_bytes))
    else none

-- A page below the capacity of a cluster of `group_size` nodes has its blocks inside every node's
-- memory.
pub capacity_fits :
    (area_size capacity index : ℕ)
    → cluster_capacity group_size area_size ≡ some capacity
    → area_size < 2 ^ 64
    → index < capacity
    → get_shift (get_data_pos group_size index).row + block_bytes ≤ area_size
unfolding cluster_capacity get_shift get_data_pos
capacity_fits area_size capacity index e a h =
    let pages : capacity ≡ area_size / block_bytes = ground arith in
    let row : index / 1 ≡ index = omega arith in rw row (omega arith)

-- In such a cluster distinct pages have distinct places.
pub get_shift-ne :
    (area_size capacity i j : ℕ)
    → cluster_capacity group_size area_size ≡ some capacity
    → area_size < 2 ^ 64
    → i < capacity
    → j < capacity
    → i ≢ j
    → get_shift (get_data_pos group_size i).row ≢ get_shift (get_data_pos group_size j).row
unfolding cluster_capacity get_shift get_data_pos
get_shift-ne area_size capacity i j e a hi hj distinct =
    let pages : capacity ≡ area_size / block_bytes = ground arith in
    λ same. distinct (omega (arith, pages, same))
