-- ===== src/Examples/Configs.antt =====
-- Tests of src/config.cpp: a file of two rows.
use undergraduate_project.Shared.{ℕ, ◌≡◌, refl, ltb, if◌then◌else◌, bytes, [], ◌∷◌, pos}
use undergraduate_project.Config.Load.{
  max_nodes, NodeType, node_undef, NodeConfig, Row, ClusterConfig, Loading, loaded, node_of_row,
  cluster_config, blank, no_node, find_conf_by_id, find_conf_by_ip_str,
}
use undergraduate_project.Config.Found.{row_found}

abbrev pub first_row : Row
first_row = record {
  node_id = pos 0;
  hostname = bytes "aep1";
  ip_addr_str = bytes "10.0.0.1";
  ib_dev_ip_addr_str = bytes "11.0.0.1";
  node_type_str = bytes "DMS";
}

abbrev pub second_row : Row
second_row = record {
  node_id = pos 1;
  hostname = bytes "aep2";
  ip_addr_str = bytes "10.0.0.2";
  ib_dev_ip_addr_str = bytes "11.0.0.2";
  node_type_str = bytes "CLI";
}

abbrev pub no_nodes : ℕ → NodeConfig
no_nodes n = no_node node_undef

abbrev config_of : Loading → ClusterConfig
config_of (loaded c) = c
config_of _ = blank no_nodes

abbrev two_nodes : ClusterConfig
two_nodes = config_of (cluster_config no_nodes (first_row ∷ second_row ∷ []))

row_found_example :
    (n : ℕ) × (before : NodeConfig) × (second_row.node_id ≡ pos n)
    × (find_conf_by_ip_str two_nodes node_undef (bytes "10.0.0.2") ≡ node_of_row before second_row)
    × (find_conf_by_id two_nodes node_undef (pos n) ≡ (
        if ltb n two_nodes.node_count then node_of_row before second_row else no_node node_undef))
unfolding cluster_config undergraduate_project.Config.Load.load_row
    undergraduate_project.Config.Load.add_row
row_found_example = row_found no_nodes (first_row ∷ []) [] second_row two_nodes node_undef refl tt
