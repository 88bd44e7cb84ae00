-- ===== src/Netif/Sessions.antt =====
-- The constructor of `NetworkInterface`: which handlers a server registers, and to which servers a client
-- connects. The session numbers come from the library, `create i` for the node at the index `i`.
use undergraduate_project.Shared.{
  ℕ, suc, ltb, leb, if◌then◌else◌, Bool, true, false, ◌||◌, not, ℤ, pos, negsuc, List, [], ◌∷◌,
  Option, none, some, update,
}
use undergraduate_project.Config.Load.{
  NodeType, node_server, node_dms, node_fms, NodeConfig, max_nodes,
}

pub data ErpcType : Type 0 where
  erpc_connect erpc_disconnect erpc_test erpc_memread erpc_memwrite erpc_open : ErpcType
  erpc_access erpc_create erpc_csize erpc_read erpc_write erpc_remove : ErpcType
  erpc_filestat erpc_dirstat erpc_mkdir erpc_rmdir erpc_readdir : ErpcType

-- `type & NODE_SERVER`.
abbrev pub is_server : NodeType → Bool
is_server node_server = true
is_server node_dms = true
is_server node_fms = true
is_server _ = false

-- The handlers of a node; a server has those for the memory besides its own.
unfoldable pub registered : NodeType → List ErpcType → List ErpcType
registered type own = if is_server type then erpc_memread ∷ erpc_memwrite ∷ own else []

pub record Sessions : Type 0 where
  pub sessions : ℕ → ℕ
  pub sess2id : ℕ → Option ℕ

-- The test of the inner `if`, for the node's own id `my_id`.
unfoldable pub connects : Bool → ℤ → ℕ → Bool
connects recover my_id n = recover || (elim my_id [ pos m ↦ ltb n m | negsuc k ↦ false ])

unfoldable pub create_session : Sessions → ℕ → ℕ → Sessions
create_session s n sess = record {
  sessions = update s.sessions n sess;
  sess2id = update s.sess2id sess (some n);
}

-- A server whose id is not below the number of the sessions is written outside of the array: `none`.
unfoldable pub connect_loop : Bool → ℤ → (ℕ → ℕ) → ℕ → List NodeConfig → Sessions → Option Sessions
unfolding connects create_session
connect_loop recover my_id create i [] s = some s
connect_loop recover my_id create i (conf ∷ nodes) s =
    let skip = connect_loop recover my_id create (suc i) nodes s in
    if not (is_server conf.type) then skip else elim conf.id [
      | negsuc k ↦ none
      | pos n ↦
          let made =
            connect_loop recover my_id create (suc i) nodes (create_session s n (create i)) in
          if not (connects recover my_id n) then skip else if leb max_nodes n then none else made
    ]

-- Clients connect to servers; `connect_to_servers` is what a node does after its setup.
unfoldable pub connect_to_servers :
    Bool → ℤ → NodeType → (ℕ → ℕ) → List NodeConfig → Sessions → Option Sessions
unfolding connect_loop
connect_to_servers recover my_id type create nodes s =
    if is_server type then some s else connect_loop recover my_id create 0 nodes s
