-- ===== src/Config/Started.antt =====
-- What the constructors leave: a started layer, and a second start.
use undergraduate_project.Shared.{
  ℕ, ◌+◌, ◌%◌, ◌^◌, ◌≤◌, ◌<◌, ◌≡◌, refl, sym, ap, ◌∙◌, arith, true, none, some, ◌⊎◌, inl, inr,
  Option-cases, Bool-cases,
}
use undergraduate_project.Config.Load.{ClusterConfig}
use undergraduate_project.Config.Machine.{CmdLineConfig, MemoryConfig, memory_config}
use undergraduate_project.Config.Start.{
  Globals, Machine, no_memory, not_configured, is_set, load_memory, load_cluster, all_set,
  layer_capacity, ecal_start, rpc_start, ecal_stop, rpc_stop,
}
use undergraduate_project.Ecal.Layout.{
  group_size, block_bytes, cluster_capacity, get_shift, get_data_pos, capacity_fits,
}

Either-cases : {A B : Type 0} (t : A ⊎ B) → ((a : A) × (t ≡ inl a)) ⊎ ((b : B) × (t ≡ inr b))
Either-cases (inl a) = inl (a, refl)
Either-cases (inr b) = inr (b, refl)

-- A start that succeeded, step by step.
ecal_start-steps :
    (m : Machine) (g g' : Globals) (capacity : ℕ)
    → ecal_start m g ≡ inr (capacity, g')
    → (conf : CmdLineConfig) × (h : Globals) × (load_memory m conf g ≡ inr h)
      × (load_cluster m h ≡ inr g')
      × (all_set g' ≡ true)
      × (layer_capacity cluster_capacity g' ≡ inr capacity)
unfolding ecal_start
ecal_start-steps m g g' capacity e = elim (Option-cases g.cmd_conf) [
  | inl e0 ↦ absurd (ground (arith, e))
  | inr (conf, e0) ↦ elim (Either-cases (load_memory m conf g)) [
    | inl (why, e1) ↦ absurd (ground (arith, e))
    | inr (h, e1) ↦ elim (Either-cases (load_cluster m h)) [
      | inl (why, e2) ↦ absurd (ground (arith, e))
      | inr (k, e2) ↦ elim (Bool-cases (all_set k)) [
        | inl e3 ↦ elim (Either-cases (layer_capacity cluster_capacity k)) [
          | inl (why, e4) ↦ absurd (ground (arith, e))
          | inr (n, e4) ↦
              let same : (n ≡ capacity) × (k ≡ g') = ground (arith, e) in
              (
                conf,
                h,
                e1,
                e2 ∙ ap inr same.1,
                sym (ap all_set same.1) ∙ e3,
                sym (ap (layer_capacity cluster_capacity) same.1) ∙ e4 ∙ ap inr same.0,
              )
        ]
        | inr e3 ↦ absurd (ground (arith, e))
      ]
    ]
  ]
]

load_cluster-keeps :
    (m : Machine) (g g' : Globals)
    → load_cluster m g ≡ inr g'
    → (g'.mem_conf ≡ g.mem_conf) × (g'.pmem_occupied ≡ g.pmem_occupied) × (g'.cmd_conf ≡ g.cmd_conf)
unfolding load_cluster
load_cluster-keeps m g g' e = ground (arith, e)

load_memory_occupies :
    (m : Machine) (conf : CmdLineConfig) (g h : Globals)
    → g.mem_conf ≡ none
    → load_memory m conf g ≡ inr h
    → h.pmem_occupied ≡ true
unfolding load_memory
load_memory_occupies m conf g h n e = ground (arith, e)

layer_capacity-inr :
    (g : Globals) (capacity : ℕ)
    → layer_capacity cluster_capacity g ≡ inr capacity
    → (c : ClusterConfig) × (mem : MemoryConfig) × (g.cluster_conf ≡ some c)
      × (g.mem_conf ≡ some mem)
      × (cluster_capacity c.node_count mem.capacity ≡ some capacity)
unfolding layer_capacity
layer_capacity-inr g capacity e = elim (Option-cases g.cluster_conf) [
  | inl e0 ↦ absurd (ground (arith, e))
  | inr (c, e0) ↦ elim (Option-cases g.mem_conf) [
    | inl e1 ↦ absurd (ground (arith, e))
    | inr (mem, e1) ↦ elim (Option-cases (cluster_capacity c.node_count mem.capacity)) [
      | inl e2 ↦ absurd (ground (arith, e))
      | inr (n, e2) ↦ (c, mem, e0, e1, ground (arith, e))
    ]
  ]
]

-- A layer that started has all its configurations, and a capacity that belongs to the cluster and the
-- memory. In a cluster of one group, with a memory of less than 2^64 bytes, every page below the
-- capacity has its blocks inside of the memory.
pub started_layer_fits :
    (m : Machine) (g g' : Globals) (capacity : ℕ)
    → ecal_start m g ≡ inr (capacity, g')
    → (all_set g' ≡ true)
      × (c : ClusterConfig) × (mem : MemoryConfig) × (g'.cluster_conf ≡ some c)
      × (g'.mem_conf ≡ some mem)
      × (c.node_count % group_size ≡ 0)
      × ((index : ℕ)
          → c.node_count ≡ group_size
          → mem.capacity < 2 ^ 64
          → index < capacity
          → get_shift (get_data_pos group_size index).row + block_bytes ≤ mem.capacity)
unfolding cluster_capacity
started_layer_fits m g g' capacity e =
    let steps = ecal_start-steps m g g' capacity e in
    let found = layer_capacity-inr g' capacity steps.5 in
    (
      steps.4,
      found.0,
      found.1,
      found.2,
      found.3,
      ground (arith, found.4),
      λ index one small below.
          capacity_fits found.1.capacity capacity index
            (sym (ap (λ n. cluster_capacity n found.1.capacity) one) ∙ found.4) small below,
    )

refused_memory :
    (m : Machine) (conf : CmdLineConfig) (g : Globals)
    → g.mem_conf ≡ none
    → g.pmem_occupied ≡ true
    → load_memory m conf g ≡ inl no_memory
unfolding load_memory memory_config
refused_memory m conf g n o = ground arith

all_set-parts :
    (g : Globals)
    → all_set g ≡ true
    → (conf : CmdLineConfig) × (c : ClusterConfig) × (g.cmd_conf ≡ some conf)
      × (g.cluster_conf ≡ some c)
      × (is_set g.mem_conf ≡ true)
unfolding all_set
all_set-parts g e = elim (Option-cases g.cmd_conf) [
  | inl e0 ↦ absurd (ground (arith, e))
  | inr (conf, e0) ↦ elim (Option-cases g.cluster_conf) [
    | inl e1 ↦ absurd (ground (arith, e))
    | inr (c, e1) ↦ (conf, c, e0, e1, ground (arith, e))
  ]
]

-- `pmemOccupied` is never given back, and `~RPCInterface` takes the node's configuration but not the
-- cluster's. Once a layer has started with a memory of its own, another one after its end is refused,
-- and so is another RPC interface after the end of one, whatever the machine is like then.
pub no_second_start :
    (m m' : Machine) (g g' : Globals) (capacity : ℕ) (conf : CmdLineConfig)
    → g.mem_conf ≡ none
    → ecal_start m g ≡ inr (capacity, g')
    → (ecal_start m' (ecal_stop g') ≡ inl no_memory)
      × (rpc_start m' (record (rpc_stop g') { cmd_conf = some conf }) ≡ inl not_configured)
unfolding ecal_start ecal_stop rpc_start rpc_stop load_cluster all_set
no_second_start m m' g g' capacity conf fresh e =
    let steps = ecal_start-steps m g g' capacity e in
    let parts = all_set-parts g' steps.4 in
    let taken =
      (load_cluster-keeps m steps.1 g' steps.3).1
      ∙ load_memory_occupies m steps.0 g steps.1 fresh steps.2 in
    let refused = refused_memory m' parts.0 (ecal_stop g') refl taken in
    (ground (arith, parts.2, refused), ground (arith, parts.3, parts.4))
