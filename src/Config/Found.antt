-- ===== src/Config/Found.antt =====
-- What the lookups of a configuration find.
use undergraduate_project.Shared.{
  ℕ, suc, ◌+◌, ◌≤◌, ◌<◌, ◌≡◌, ◌≢◌, refl, sym, ap, ◌∙◌, arith, leb, ltb, ◌==◌, if◌then◌else◌, true,
  false, Bool-cases, inl, inr, ◌⊎◌, some, List, [], ◌∷◌, ◌++◌, length, ℤ, pos, negsuc, Text,
  text_eq_refl, text_eq_ne,
}
use undergraduate_project.Config.Load.{
  max_nodes, NodeType, NodeConfig, Row, ClusterConfig, Loading, loaded, exited, out_of_bounds,
  node_of_row, add_row, load_row, load, cluster_config, blank, no_node, is_id, find_conf_by_id,
  find_conf_by_ip_str,
}

-- No row names the address.
abbrev pub NoneHasIp : Text → List Row → Type 0
NoneHasIp ip [] = Unit
NoneHasIp ip (r ∷ rows) = (r.ip_addr_str ≢ ip) × NoneHasIp ip rows

-- What a row that was taken has done.
record Taken (c c' : ClusterConfig) (i : ℕ) (r : Row) : Type 0 where
  place : ℕ
  named : r.node_id ≡ pos place
  new : c.node_ids place ≡ false
  fits : i < max_nodes
  added : c' ≡ add_row c place r

ℤ-cases : (z : ℤ) → ((n : ℕ) × (z ≡ pos n)) ⊎ ((k : ℕ) × (z ≡ negsuc k))
ℤ-cases (pos n) = inl (n, refl)
ℤ-cases (negsuc k) = inr (k, refl)

Loading-cases :
    (l : Loading) → ((c : ClusterConfig) × (l ≡ loaded c)) ⊎ (l ≡ exited) ⊎ (l ≡ out_of_bounds)
Loading-cases (loaded c) = inl (c, refl)
Loading-cases exited = inr (inl refl)
Loading-cases out_of_bounds = inr (inr refl)

load_row-Taken :
    (c c' : ClusterConfig) (i : ℕ) (r : Row) → load_row c i r ≡ loaded c' → Taken c c' i r
unfolding load_row
load_row-Taken c c' i r e = elim (ℤ-cases r.node_id) [
  | inr (k, below) ↦ absurd (ground arith)
  | inl (n, at) ↦ elim (Bool-cases (leb max_nodes i)) [
    | inl late ↦ absurd (ground arith)
    | inr early ↦ elim (Bool-cases (c.node_ids n)) [
      | inl old ↦ absurd (ground arith)
      | inr new ↦ record {
        place = n;
        named = at;
        new = new;
        fits = ground arith;
        added = ground arith;
      }
    ]
  ]
]

-- The first row that is taken, and the loading of the others after it.
load_step :
    (c d : ClusterConfig) (i : ℕ) (r : Row) (rows : List Row)
    → load c i (r ∷ rows) ≡ loaded d
    → (c' : ClusterConfig) × Taken c c' i r × (load c' (suc i) rows ≡ loaded d)
unfolding load
load_step c d i r rows e = elim (Loading-cases (load_row c i r)) [
  | inl (c', taken) ↦ (c', load_row-Taken c c' i r taken, rw (load, taken) at e)
  | inr (inl out) ↦ absurd (ground arith)
  | inr (inr wild) ↦ absurd (ground arith)
]

place_other :
    (c : ClusterConfig) (place n : ℕ)
    → c.node_ids place ≡ false
    → c.node_ids n ≡ true
    → (place == n) ≡ false
place_other c place n new there = elim (Bool-cases (place == n)) [
  | inl same ↦ let equal : place ≡ n = ground arith in absurd (ground (arith, ap c.node_ids equal))
  | inr other ↦ other
]

same_refl : (n : ℕ) → (n == n) ≡ true
same_refl n = ground arith

-- What an added row has written.
added_here :
    (c c' : ClusterConfig) (n : ℕ) (r : Row)
    → c' ≡ add_row c n r
    → (c'.node_ids n ≡ true)
      × (c'.node_conf n ≡ node_of_row (c.node_conf n) r)
      × (c'.ip2id r.ip_addr_str ≡ some n)
unfolding add_row
added_here c c' n r e = rw (e, same_refl n, text_eq_refl r.ip_addr_str) (refl, refl, refl)

-- The other rows leave a node that is configured, and an address that they do not name, as they were.
load_keeps :
    (c d : ClusterConfig) (i : ℕ) (rows : List Row) (n : ℕ) (ip : Text)
    → load c i rows ≡ loaded d
    → c.node_ids n ≡ true
    → NoneHasIp ip rows
    → (d.node_conf n ≡ c.node_conf n) × (d.ip2id ip ≡ c.ip2id ip)
unfolding load add_row
load_keeps c d i [] n ip e there none_has =
    let same : record c { node_count = i } ≡ d = ground arith in rw (sym same) (refl, refl)
load_keeps c d i (r ∷ rows) n ip e there none_has =
    let step = load_step c d i r rows e in
    let place = step.1.place in
    let other = place_other c place n step.1.new there in
    let nodes : step.0.node_conf n ≡ c.node_conf n = rw (step.1.added, other) refl in
    let addresses : step.0.ip2id ip ≡ c.ip2id ip =
      rw (step.1.added, text_eq_ne r.ip_addr_str ip none_has.0) refl in
    let kept : step.0.node_ids n ≡ true = rw (step.1.added, other) there in
    let ih = load_keeps step.0 d (suc i) rows n ip step.2 kept none_has.1 in
    (ih.0 ∙ nodes, ih.1 ∙ addresses)

load_counts :
    (c d : ClusterConfig) (i : ℕ) (rows : List Row)
    → load c i rows ≡ loaded d
    → i ≤ max_nodes
    → (d.node_count ≡ i + length rows) × (d.node_count ≤ max_nodes)
unfolding load
load_counts c d i [] e h =
    let same : record c { node_count = i } ≡ d = ground arith in rw (sym same) (omega arith, h)
load_counts c d i (r ∷ rows) e h =
    let step = load_step c d i r rows e in
    let ih = load_counts step.0 d (suc i) rows step.2 (omega (arith, step.1.fits)) in
    (omega (arith, ih.0), ih.1)

-- A configuration that was loaded holds as many nodes as the file has rows, and no more than 32.
pub cluster_config_counts :
    (nodes : ℕ → NodeConfig) (rows : List Row) (d : ClusterConfig)
    → cluster_config nodes rows ≡ loaded d
    → (d.node_count ≡ length rows) × (d.node_count ≤ max_nodes)
unfolding cluster_config
cluster_config_counts nodes rows d e =
    let counts = load_counts (blank nodes) d 0 rows e (omega arith) in
    (omega (arith, counts.0), counts.1)

-- The rows before a given one are taken first.
load_from :
    (c d : ClusterConfig) (i : ℕ) (front rest : List Row)
    → load c i (front ++ rest) ≡ loaded d
    → (c' : ClusterConfig) × (i' : ℕ) × (load c' i' rest ≡ loaded d)
load_from c d i [] rest e = (c, i, e)
load_from c d i (r ∷ front) rest e =
    let step = load_step c d i r (front ++ rest) e in load_from step.0 d (suc i) front rest step.2

by_ip :
    (d : ClusterConfig) (junk : NodeType) (ip : Text) (n : ℕ)
    → d.ip2id ip ≡ some n
    → find_conf_by_ip_str d junk ip ≡ d.node_conf n
unfolding find_conf_by_ip_str
by_ip d junk ip n e = rw (find_conf_by_ip_str, e) refl

by_id :
    (d : ClusterConfig) (junk : NodeType) (n : ℕ) (node : NodeConfig)
    → d.node_conf n ≡ node
    → node.id ≡ pos n
    → find_conf_by_id d junk (pos n) ≡ (if ltb n d.node_count then node else no_node junk)
unfolding find_conf_by_id
by_id d junk n node e named =
    let held : is_id (d.node_conf n) n ≡ true = rw (e, is_id, named) (same_refl n) in
    elim (Bool-cases (ltb n d.node_count)) [
      | inl below ↦ rw (find_conf_by_id, below, held) e
      | inr above ↦ rw (find_conf_by_id, above) refl
    ]

-- In a configuration that was loaded, the address of a row that no later row names leads to the node
-- of that row, with the row's names; its type is the row's if that is known. The lookup by its id
-- finds it exactly when the id is below the number of nodes.
pub row_found :
    (nodes : ℕ → NodeConfig) (front back : List Row) (r : Row) (d : ClusterConfig) (junk : NodeType)
    → cluster_config nodes (front ++ r ∷ back) ≡ loaded d
    → NoneHasIp r.ip_addr_str back
    → (n : ℕ) × (before : NodeConfig) × (r.node_id ≡ pos n)
      × (find_conf_by_ip_str d junk r.ip_addr_str ≡ node_of_row before r)
      × (find_conf_by_id d junk (pos n)
          ≡ (if ltb n d.node_count then node_of_row before r else no_node junk))
unfolding cluster_config node_of_row
row_found nodes front back r d junk e none_has =
    let reached = load_from (blank nodes) d 0 front (r ∷ back) e in
    let step = load_step reached.0 d reached.1 r back reached.2 in
    let n = step.1.place in
    let before = reached.0.node_conf n in
    let here = added_here reached.0 step.0 n r step.1.added in
    let kept = load_keeps step.0 d (suc reached.1) back n r.ip_addr_str step.2 here.0 none_has in
    let node : d.node_conf n ≡ node_of_row before r = kept.0 ∙ here.1 in
    let address : d.ip2id r.ip_addr_str ≡ some n = kept.1 ∙ here.2 in
    (
      n,
      before,
      step.1.named,
      by_ip d junk r.ip_addr_str n address ∙ node,
      by_id d junk n (node_of_row before r) node step.1.named,
    )
