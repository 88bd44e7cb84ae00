-- ===== src/Examples/Starts.antt =====
-- Tests of the constructors, on a machine with the configuration of three nodes and eight pages.
use undergraduate_project.Shared.{
  ℕ, ◌+◌, ◌%◌, ◌^◌, ◌≤◌, ◌<◌, ◌≡◌, refl, arith, bytes, [], ◌∷◌, pos, false, true, Option, none,
  some, ◌⊎◌, inl, inr,
}
use undergraduate_project.Config.Load.{Row, ClusterConfig, node_undef}
use undergraduate_project.Config.Machine.{CmdLineConfig, MemoryConfig}
use undergraduate_project.Config.Start.{
  Globals, Machine, Refusal, no_memory, not_configured, all_set, ecal_start, rpc_start, ecal_stop,
  rpc_stop,
}
use undergraduate_project.Config.Started.{started_layer_fits, no_second_start}
use undergraduate_project.Ecal.Layout.{group_size, block_bytes, get_shift, get_data_pos}
use undergraduate_project.Examples.Configs.{first_row, second_row, no_nodes}

abbrev third_row : Row
third_row = record second_row { node_id = pos 2; ip_addr_str = bytes "10.0.0.3" }

abbrev machine : Machine
machine = record {
  spurious = false;
  fd = pos 3;
  base = 4096;
  nodes = no_nodes;
  rows = first_row ∷ second_row ∷ third_row ∷ [];
  junk = node_undef;
  ip = bytes "10.0.0.2";
}

abbrev command : CmdLineConfig
command = record {
  cluster_config_file = bytes "cluster.conf";
  pmem_device_name = bytes "/dev/dax1.0";
  tcp_port = pos 40346;
  udp_port = pos 31850;
  pmem_size = 16384;
  recover = false;
  count = pos 100;
  size = pos 4096;
  threads = pos 1;
}

abbrev unset : Globals
unset = record {
  cmd_conf = some command;
  mem_conf = none;
  cluster_conf = none;
  my_node_conf = none;
  pmem_occupied = false;
}

abbrev globals_of : Refusal ⊎ (ℕ × Globals) → Globals
globals_of (inl why) = unset
globals_of (inr done) = done.1

abbrev started : Globals
started = globals_of (ecal_start machine unset)

started_layer_fits_example :
    (all_set started ≡ true)
    × (c : ClusterConfig) × (mem : MemoryConfig) × (started.cluster_conf ≡ some c)
    × (started.mem_conf ≡ some mem)
    × (c.node_count % group_size ≡ 0)
    × ((index : ℕ)
        → c.node_count ≡ group_size
        → mem.capacity < 2 ^ 64
        → index < 8
        → get_shift (get_data_pos group_size index).row + block_bytes ≤ mem.capacity)
unfolding ecal_start undergraduate_project.Config.Start.start_layer
    undergraduate_project.Config.Start.load_memory
    undergraduate_project.Config.Machine.memory_config
    undergraduate_project.Config.Start.load_cluster undergraduate_project.Config.Load.cluster_config
    undergraduate_project.Config.Load.load_row undergraduate_project.Config.Load.add_row
    undergraduate_project.Config.Machine.find_myself undergraduate_project.Shared.text_eq all_set
    undergraduate_project.Config.Start.layer_capacity
    undergraduate_project.Ecal.Layout.cluster_capacity
started_layer_fits_example = started_layer_fits machine unset started 8 refl

no_second_start_example :
    (ecal_start machine (ecal_stop started) ≡ inl no_memory)
    × (rpc_start machine (record (rpc_stop started) { cmd_conf = some command })
        ≡ inl not_configured)
unfolding ecal_start undergraduate_project.Config.Start.start_layer
    undergraduate_project.Config.Start.load_memory
    undergraduate_project.Config.Machine.memory_config
    undergraduate_project.Config.Start.load_cluster undergraduate_project.Config.Load.cluster_config
    undergraduate_project.Config.Load.load_row undergraduate_project.Config.Load.add_row
    undergraduate_project.Config.Machine.find_myself undergraduate_project.Shared.text_eq all_set
    undergraduate_project.Config.Start.layer_capacity
    undergraduate_project.Ecal.Layout.cluster_capacity
no_second_start_example = no_second_start machine machine unset started 8 command refl refl
