-- ===== src/Config/Start.antt =====
-- The start of a node: the global configurations, and the constructors that fill them, of src/ecal.cpp
-- and src/network/rpc.cpp with what src/network/rdma.cpp and include/datablock.hpp ask of them.
use undergraduate_project.Shared.{
  ℕ, if◌then◌else◌, Bool, true, false, ◌&&◌, ◌||◌, not, Option, none, some, List, ◌⊎◌, inl, inr,
  Text, ℤ, is_negative,
}
use undergraduate_project.Config.Load.{
  NodeType, NodeConfig, Row, ClusterConfig, cluster_config, loaded, exited, out_of_bounds,
}
use undergraduate_project.Config.Machine.{CmdLineConfig, MemoryConfig, memory_config, find_myself}
use undergraduate_project.Ecal.Layout.{cluster_capacity}

-- `pmem_occupied` is `pmemOccupied`.
pub record Globals : Type 0 where
  pub cmd_conf : Option CmdLineConfig
  pub mem_conf : Option MemoryConfig
  pub cluster_conf : Option ClusterConfig
  pub my_node_conf : Option NodeConfig
  pub pmem_occupied : Bool

-- What the constructors find: a spurious failure of the exchange of `pmemOccupied`, the results
-- of `open` and `mmap`, the nodes before the loop and the rows of the configuration file, the type of a
-- node that is not found, and the address of the host.
pub record Machine : Type 0 where
  pub spurious : Bool
  pub fd : ℤ
  pub base : ℕ
  pub nodes : ℕ → NodeConfig
  pub rows : List Row
  pub junk : NodeType
  pub ip : Text

-- Why a constructor ends the program. `broken` is a write outside of the array of nodes.
pub data Refusal : Type 0 where
  no_command no_memory bad_file broken not_in_cluster not_configured odd_cluster : Refusal

abbrev pub is_set : {A : Type 0} → Option A → Bool
is_set none = false
is_set (some a) = true

-- `MemoryConfig`, where there is none yet.
unfoldable pub load_memory : Machine → CmdLineConfig → Globals → Refusal ⊎ Globals
load_memory m conf g = elim g.mem_conf [
  | some old ↦ inr g
  | none ↦ elim (memory_config g.pmem_occupied m.spurious conf m.fd m.base) [
    | none ↦ inl no_memory
    | some mem ↦ inr (record g { mem_conf = some mem; pmem_occupied = true })
  ]
]

-- `ClusterConfig` and `findMyself`, where neither is there yet.
unfoldable pub load_cluster : Machine → Globals → Refusal ⊎ Globals
load_cluster m g =
    if is_set g.cluster_conf || is_set g.my_node_conf
    then inr g
    else elim (cluster_config m.nodes m.rows) [
      | exited ↦ inl bad_file
      | out_of_bounds ↦ inl broken
      | loaded c ↦
          let myself = find_myself c m.junk m.ip in
          if is_negative myself.id
          then inl not_in_cluster
          else inr (record g { cluster_conf = some c; my_node_conf = some myself })
    ]

-- What `RDMASocket` asks first.
unfoldable pub all_set : Globals → Bool
all_set g = is_set g.cmd_conf && is_set g.cluster_conf && is_set g.mem_conf && is_set g.my_node_conf

-- The capacity, once the socket is there, by a layer's rule.
unfoldable pub layer_capacity : (ℕ → ℕ → Option ℕ) → Globals → Refusal ⊎ ℕ
layer_capacity capacity_of g = elim g.cluster_conf [
  | none ↦ inl not_configured
  | some c ↦ elim g.mem_conf [
    | none ↦ inl not_configured
    | some mem ↦ elim (capacity_of c.node_count mem.capacity) [
      | none ↦ inl odd_cluster
      | some capacity ↦ inr capacity
    ]
  ]
]

-- The constructor of a layer, in the order of the source. The capacity and the configurations.
unfoldable pub start_layer : (ℕ → ℕ → Option ℕ) → Machine → Globals → Refusal ⊎ (ℕ × Globals)
start_layer capacity_of m g = elim g.cmd_conf [
  | none ↦ inl no_command
  | some conf ↦ elim (load_memory m conf g) [
    | inl why ↦ inl why
    | inr g' ↦ elim (load_cluster m g') [
      | inl why ↦ inl why
      | inr g'' ↦
          if not (all_set g'') then inl not_configured else elim (layer_capacity capacity_of g'') [
            | inl why ↦ inl why
            | inr capacity ↦ inr (capacity, g'')
          ]
    ]
  ]
]

-- `ECAL::ECAL`.
unfoldable pub ecal_start : Machine → Globals → Refusal ⊎ (ℕ × Globals)
unfolding start_layer
ecal_start m g = start_layer cluster_capacity m g

-- `RPCInterface::RPCInterface`, which asks for the memory.
unfoldable pub rpc_start : Machine → Globals → Refusal ⊎ Globals
rpc_start m g =
    if not (is_set g.cmd_conf) || not (is_set g.mem_conf)
    then inl no_command
    else elim (load_cluster m g) [
      | inl why ↦ inl why
      | inr g' ↦ if not (all_set g') then inl not_configured else inr g'
    ]

-- `ECAL::~ECAL`.
unfoldable pub ecal_stop : Globals → Globals
ecal_stop g = record g { mem_conf = none }

-- `RPCInterface::~RPCInterface`: the memory and the cluster stay.
unfoldable pub rpc_stop : Globals → Globals
rpc_stop g = record g { cmd_conf = none; my_node_conf = none }
