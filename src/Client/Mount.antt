-- ===== src/Client/Mount.antt =====
-- `parseConfig`, and the sessions that the client has made before it: the servers that it calls.
use undergraduate_project.Shared.{
  ℕ, zero, suc, ◌≡◌, refl, sym, ap, ◌∙◌, ◌⊎◌, inl, inr, ltb, if◌then◌else◌, Bool, true, false, ◌||◌,
  List, [], ◌∷◌, ◌++◌, some, ℤ, pos, Bool-cases, subst,
}
use undergraduate_project.Config.Load.{NodeType, node_dms, node_fms, NodeConfig, ClusterConfig}
use undergraduate_project.Netif.Sessions.{is_server, Sessions, connect_loop}
use undergraduate_project.Netif.Connected.{sessions_are_to_servers_below}

pub record Servers : Type 0 where
  pub directory_trans : ℤ
  pub file_trans : List ℤ
  pub data_trans : List ℤ

-- `(*clusterConf)[i]` for the `left` indices from `i` on.
abbrev pub nodes_from : ClusterConfig → ℕ → ℕ → List NodeConfig
nodes_from c i zero = []
nodes_from c i (suc left) = c.node_conf i ∷ nodes_from c (suc i) left

abbrev pub is_dms : NodeType → Bool
is_dms node_dms = true
is_dms _ = false

abbrev pub is_fms : NodeType → Bool
is_fms node_fms = true
is_fms _ = false

unfoldable pub take_node : Servers → NodeConfig → Servers
take_node s conf = record {
  data_trans = s.data_trans ++ conf.id ∷ [];
  directory_trans = if is_dms conf.type then conf.id else s.directory_trans;
  file_trans = if is_fms conf.type then s.file_trans ++ conf.id ∷ [] else s.file_trans;
}

unfoldable pub take_nodes : Servers → List NodeConfig → Servers
unfolding take_node
take_nodes s [] = s
take_nodes s (conf ∷ nodes) = take_nodes (take_node s conf) nodes

unfoldable pub parse_config : ClusterConfig → Servers → Servers
unfolding take_nodes
parse_config c s = take_nodes s (nodes_from c 0 c.node_count)

-- A server of the list with this id.
record IsServer (nodes : List NodeConfig) (id : ℤ) : Type 0 where
  before : List NodeConfig
  conf : NodeConfig
  after : List NodeConfig
  split : nodes ≡ before ++ conf ∷ after
  serves : is_server conf.type ≡ true
  named : conf.id ≡ id

first-IsServer :
    (conf : NodeConfig) (nodes : List NodeConfig)
    → is_server conf.type ≡ true
    → IsServer (conf ∷ nodes) conf.id
first-IsServer conf nodes serves = record {
  before = [];
  conf = conf;
  after = nodes;
  split = refl;
  serves = serves;
  named = refl;
}

later-IsServer :
    (first : NodeConfig) (nodes : List NodeConfig) (id : ℤ)
    → IsServer nodes id
    → IsServer (first ∷ nodes) id
later-IsServer first nodes id s = record {
  before = first ∷ s.before;
  conf = s.conf;
  after = s.after;
  split = ap (◌∷◌ first) s.split;
  serves = s.serves;
  named = s.named;
}

pub data IsIn (id : ℤ) : List ℤ → Type 0 where
  here : {x : ℤ} {ids : List ℤ} → id ≡ x → IsIn id (x ∷ ids)
  there : {x : ℤ} {ids : List ℤ} → IsIn id ids → IsIn id (x ∷ ids)

dms_serves : (t : NodeType) → is_dms t ≡ true → is_server t ≡ true
dms_serves node_dms h = refl
dms_serves _ h = cc

fms_serves : (t : NodeType) → is_fms t ≡ true → is_server t ≡ true
fms_serves node_fms h = refl
fms_serves _ h = cc

-- The directory server is the one of before or a server of the list.
directory-IsServer :
    (s : Servers) (nodes : List NodeConfig)
    → ((take_nodes s nodes).directory_trans ≡ s.directory_trans)
      ⊎ IsServer nodes (take_nodes s nodes).directory_trans
unfolding take_nodes take_node
directory-IsServer s [] = inl refl
directory-IsServer s (conf ∷ nodes) = elim (directory-IsServer (take_node s conf) nodes) [
  | inr found ↦ inr (later-IsServer conf nodes _ found)
  | inl kept ↦ elim (Bool-cases (is_dms conf.type)) [
    | inl dms ↦
        let chosen : (take_node s conf).directory_trans ≡ conf.id = rw dms refl in
        inr (
          subst (IsServer (conf ∷ nodes)) (sym (kept ∙ chosen))
            (first-IsServer conf nodes (dms_serves conf.type dms)))
    | inr other ↦ inl (kept ∙ rw other refl)
  ]
]

-- The ids of the file servers, in their order.
abbrev pub fms_ids : List NodeConfig → List ℤ
fms_ids [] = []
fms_ids (conf ∷ nodes) =
    let rest = fms_ids nodes in if is_fms conf.type then conf.id ∷ rest else rest

snoc-append : (xs : List ℤ) (x : ℤ) (ys : List ℤ) → (xs ++ x ∷ []) ++ ys ≡ xs ++ x ∷ ys
snoc-append [] x ys = refl
snoc-append (y ∷ xs) x ys = ap (◌∷◌ y) (snoc-append xs x ys)

append-nil : (xs : List ℤ) → xs ++ [] ≡ xs
append-nil [] = refl
append-nil (x ∷ xs) = ap (◌∷◌ x) (append-nil xs)

take_nodes-file_trans :
    (s : Servers) (nodes : List NodeConfig)
    → (take_nodes s nodes).file_trans ≡ s.file_trans ++ fms_ids nodes
unfolding take_nodes take_node
take_nodes-file_trans s [] = sym (append-nil s.file_trans)
take_nodes-file_trans s (conf ∷ nodes) = elim (Bool-cases (is_fms conf.type)) [
  | inl fms ↦
      take_nodes-file_trans (take_node s conf) nodes
      ∙ rw fms (snoc-append s.file_trans conf.id (fms_ids nodes))
  | inr other ↦ take_nodes-file_trans (take_node s conf) nodes ∙ rw other refl
]

file_first :
    (conf : NodeConfig) (nodes : List NodeConfig) (id : ℤ)
    → is_fms conf.type ≡ true
    → (IsIn id (fms_ids nodes) → IsServer nodes id)
    → IsIn id (conf.id ∷ fms_ids nodes)
    → IsServer (conf ∷ nodes) id
file_first conf nodes id fms rest (here same) =
    subst (IsServer (conf ∷ nodes)) (sym same)
      (first-IsServer conf nodes (fms_serves conf.type fms))
file_first conf nodes id fms rest (there at) = later-IsServer conf nodes id (rest at)

file-IsServer : (nodes : List NodeConfig) (id : ℤ) → IsIn id (fms_ids nodes) → IsServer nodes id
file-IsServer [] id at = elim at [ ]
file-IsServer (conf ∷ nodes) id at = elim (Bool-cases (is_fms conf.type)) [
  | inr other ↦ later-IsServer conf nodes id (file-IsServer nodes id (rw other at at))
  | inl fms ↦ file_first conf nodes id fms (file-IsServer nodes id) (rw fms at at)
]

-- A client that the configuration and the library's distinct session numbers let through its constructor,
-- and that starts with no file servers: the directory server that parseConfig takes, if the
-- configuration has one, and every file server are nodes with which the client has a session, whose
-- number leads back to that node, as long as their ids are below its own or it recovers.
pub mounted_client_reaches_servers :
    (c : ClusterConfig) (before : Servers) (recover : Bool) (my_id : ℕ) (create : ℕ → ℕ)
    (s : Sessions) {t : Sessions} (n : ℕ)
    → before.file_trans ≡ []
    → ((j k : ℕ) → create j ≡ create k → j ≡ k)
    → connect_loop recover (pos my_id) create 0 (nodes_from c 0 c.node_count) s ≡ some t
    → recover || ltb n my_id ≡ true
    → let m = parse_config c before in
      (m.directory_trans ≡ pos n
        → (m.directory_trans ≡ before.directory_trans) ⊎ (t.sess2id (t.sessions n) ≡ some n))
      × (IsIn (pos n) m.file_trans → t.sess2id (t.sessions n) ≡ some n)
unfolding parse_config
mounted_client_reaches_servers c before recover my_id create s {t} n none_before injective made
      due =
    let nodes = nodes_from c 0 c.node_count in
    let has_session : IsServer nodes (pos n) → t.sess2id (t.sessions n) ≡ some n = λ found.
      (sessions_are_to_servers_below recover my_id create found.before found.conf found.after n s
          injective (rw found.split at made) found.named found.serves).0
        due in
    (
      λ chosen. elim (directory-IsServer before nodes) [
        | inl kept ↦ inl kept
        | inr found ↦ inr (has_session (subst (IsServer nodes) chosen found))
      ],
      λ at. has_session (
          file-IsServer nodes (pos n)
            (subst (IsIn (pos n)) (take_nodes-file_trans before nodes ∙ rw none_before refl) at)),
    )
