-- ===== src/Config/Load.antt =====
-- `ClusterConfig`: a row is what one turn of the loop reads from the file. The member `type` of a node
-- is uninitialised until a known name sets it, so the nodes before the loop are an argument.
use undergraduate_project.Shared.{
  ℕ, suc, leb, ltb, ◌==◌, if◌then◌else◌, Bool, true, false, ◌&&◌, none, some, List, [], ◌∷◌, ℤ, pos,
  negsuc, Text, TextMap, assign, text_eq, bytes,
}

abbrev pub max_nodes : ℕ
max_nodes = 32

pub data NodeType : Type 0 where
  node_undef node_server node_dms node_fms node_client : NodeType

pub record NodeConfig : Type 0 where
  pub id : ℤ
  pub hostname : Text
  pub ip_addr_str : Text
  pub ib_dev_ip_addr_str : Text
  pub type : NodeType

pub record Row : Type 0 where
  pub node_id : ℤ
  pub hostname : Text
  pub ip_addr_str : Text
  pub ib_dev_ip_addr_str : Text
  pub node_type_str : Text

pub record ClusterConfig : Type 0 where
  pub node_conf : ℕ → NodeConfig
  pub node_ids : ℕ → Bool
  pub ip2id : TextMap ℕ
  pub host2id : TextMap ℕ
  pub node_count : ℕ

-- The constructor returns, or exits, or writes outside of its array.
pub data Loading : Type 0 where
  loaded : ClusterConfig → Loading
  exited : Loading
  out_of_bounds : Loading

-- Data servers are clients; an unknown name leaves the type as it was.
unfoldable pub type_of : NodeType → Text → NodeType
type_of before name =
    if text_eq name (bytes "DMS")
    then node_dms
    else if text_eq name (bytes "FMS")
    then node_fms
    else if text_eq name (bytes "DS")
    then node_client
    else if text_eq name (bytes "CLI")
    then node_client
    else before

unfoldable pub node_of_row : NodeConfig → Row → NodeConfig
unfolding type_of
node_of_row before r = record {
  id = r.node_id;
  hostname = r.hostname;
  ip_addr_str = r.ip_addr_str;
  ib_dev_ip_addr_str = r.ib_dev_ip_addr_str;
  type = type_of before.type r.node_type_str;
}

unfoldable pub add_row : ClusterConfig → ℕ → Row → ClusterConfig
unfolding node_of_row
add_row c n r = record {
  node_conf = λ j. if n == j then node_of_row (c.node_conf n) r else c.node_conf j;
  node_ids = λ j. if n == j then true else c.node_ids j;
  ip2id = assign c.ip2id r.ip_addr_str n;
  host2id = assign c.host2id r.hostname n;
  node_count = c.node_count;
}

unfoldable pub load_row : ClusterConfig → ℕ → Row → Loading
load_row c i r = if leb max_nodes i then exited else elim r.node_id [
  | negsuc k ↦ out_of_bounds
  | pos n ↦
      if c.node_ids n
      then exited
      else if leb max_nodes n
      then out_of_bounds
      else loaded (add_row c n r)
]

unfoldable pub load : ClusterConfig → ℕ → List Row → Loading
load c i [] = loaded (record c { node_count = i })
load c i (r ∷ rows) = elim (load_row c i r) [
  | loaded c' ↦ load c' (suc i) rows
  | exited ↦ exited
  | out_of_bounds ↦ out_of_bounds
]

-- The members before the loop.
abbrev pub blank : (ℕ → NodeConfig) → ClusterConfig
blank nodes = record {
  node_conf = nodes;
  node_ids = λ j. false;
  ip2id = λ k. none;
  host2id = λ k. none;
  node_count = 0;
}

-- `ClusterConfig::ClusterConfig` on a file that can be opened.
unfoldable pub cluster_config : (ℕ → NodeConfig) → List Row → Loading
unfolding load
cluster_config nodes rows = load (blank nodes) 0 rows

-- `NodeConfig()`
abbrev pub no_node : NodeType → NodeConfig
no_node junk = record {
  id = negsuc 0;
  hostname = [];
  ip_addr_str = [];
  ib_dev_ip_addr_str = [];
  type = junk;
}

abbrev pub is_id : NodeConfig → ℕ → Bool
is_id node n = elim node.id [ pos m ↦ m == n | negsuc k ↦ false ]

unfoldable pub find_conf_by_id : ClusterConfig → NodeType → ℤ → NodeConfig
find_conf_by_id c junk (negsuc k) = no_node junk
find_conf_by_id c junk (pos n) =
    if ltb n c.node_count && is_id (c.node_conf n) n then c.node_conf n else no_node junk

unfoldable pub find_conf_by_hostname : ClusterConfig → NodeType → Text → NodeConfig
find_conf_by_hostname c junk hostname = elim (c.host2id hostname) [
  | none ↦ no_node junk
  | some n ↦ c.node_conf n
]

unfoldable pub find_conf_by_ip_str : ClusterConfig → NodeType → Text → NodeConfig
find_conf_by_ip_str c junk ip_addr_str = elim (c.ip2id ip_addr_str) [
  | none ↦ no_node junk
  | some n ↦ c.node_conf n
]
