-- ===== src/Variants/Replicated.antt =====
-- src/test/ecal_repl.cpp: every page is kept as a whole by the first three nodes of the configuration,
-- and is read from node 0. `ids` are the ids of these nodes.
use undergraduate_project.Shared.{
  ℕ, ◌+◌, ◌-◌, ◌*◌, ◌/◌, ◌%◌, ◌^◌, ◌≤◌, ◌<◌, ◌≡◌, ◌≢◌, refl, sym, ap, ◌∙◌, arith, ◌⊎◌, inl, inr,
  ◌==◌, if◌then◌else◌, Bool, true, ◌||◌, Option, none, some, List, [], ◌∷◌, Bool-cases, update,
}
use undergraduate_project.Config.Start.{Machine, Globals, Refusal, start_layer}
use undergraduate_project.Ecal.Layout.{group_size, data_blocks, block_bytes, pool_length, get_shift}
use undergraduate_project.Variants.Areas.{
  Area, put_all, get_two, get_two-put_all, get_two_aside, page_place,
}

module _ {B : Type 0} where
  -- The own copy, a copy at a live peer, and no copy at a dead one.
  unfoldable pub copy_to : (ℕ → Bool) → ℕ → Area B → ℕ → ℕ → List B → Area B
  unfolding put_all
  copy_to alive my_id mem peer_id shift page =
      if peer_id == my_id || alive peer_id then put_all mem peer_id shift page else mem

  unfoldable pub write_block : (ℕ → Bool) → ℕ → List ℕ → Area B → ℕ → List B → Area B
  unfolding copy_to
  write_block alive my_id [] mem index page = mem
  write_block alive my_id (peer_id ∷ ids) mem index page =
      write_block alive my_id ids
        (copy_to alive my_id mem peer_id (get_shift (index * data_blocks)) page) index page

  -- The node's own copy, or the region after a read into it was posted to node 0 and polled, whatever its
  -- completion says. The region is filled when the read is carried out, and otherwise has what it `held`.
  unfoldable pub read_block : Bool → ℕ → Area B → List B → ℕ → List B
  read_block carried_out my_id mem held index =
      let there = get_two mem 0 (get_shift (index * data_blocks)) in
      if 0 == my_id then there else if carried_out then there else held

-- In pages; `none` where the constructor exits.
unfoldable pub capacity : ℕ → ℕ → Option ℕ
unfolding pool_length
capacity cluster_size area_size =
    if cluster_size % group_size == 0
    then some (cluster_size / group_size * (pool_length area_size / (4096 / block_bytes)))
    else none

-- The constructor.
unfoldable pub start : Machine → Globals → Refusal ⊎ (ℕ × Globals)
unfolding start_layer capacity
start m g = start_layer capacity m g

module _ (B : Type 0) where
  -- A write, and which nodes are alive at its time.
  pub record Write : Type 0 where
    pub index : ℕ
    pub first : B
    pub second : B
    pub writer : ℕ
    pub alive : ℕ → Bool

  abbrev pub run_writes : List ℕ → Area B → List Write → Area B
  run_writes ids mem [] = mem
  run_writes ids mem (w ∷ ws) =
      run_writes ids (write_block w.alive w.writer ids mem w.index (w.first ∷ w.second ∷ [])) ws

  abbrev pub array_writes : (ℕ → B × B) → List Write → ℕ → B × B
  array_writes pages [] = pages
  array_writes pages (w ∷ ws) = array_writes (update pages w.index (w.first, w.second)) ws

  -- The writes are of pages below `limit`, and node 0 takes part in each.
  abbrev pub AllReach : ℕ → List Write → Type 0
  AllReach limit [] = Unit
  AllReach limit (w ∷ ws) =
      ((w.index < limit) × ((0 == w.writer || w.alive 0) ≡ true)) × AllReach limit ws

  -- Node 0 holds the pages of an array.
  abbrev pub Holds : ℕ → Area B → (ℕ → B × B) → Type 0
  Holds limit mem pages =
      (index : ℕ)
      → index < limit
      → get_two mem 0 (get_shift (index * data_blocks)) ≡ (pages index).0 ∷ (pages index).1 ∷ []

module _ {B : Type 0} where
  copy_aside :
      (alive : ℕ → Bool) (my_id : ℕ) (mem : Area B) (peer_id shift place : ℕ) (b c : B)
      → (0 ≢ peer_id) ⊎ (place + 2 * block_bytes ≤ shift) ⊎ (shift + 2 * block_bytes ≤ place)
      → get_two (copy_to alive my_id mem peer_id shift (b ∷ c ∷ [])) 0 place ≡ get_two mem 0 place
  unfolding copy_to
  copy_aside alive my_id mem peer_id shift place b c apart =
      elim (Bool-cases (peer_id == my_id || alive peer_id)) [
        | inl e ↦ rw (copy_to, e) (get_two_aside mem peer_id shift 0 place b c apart)
        | inr e ↦ rw (copy_to, e) refl
      ]

  copy_here :
      (alive : ℕ → Bool) (my_id : ℕ) (mem : Area B) (shift : ℕ) (b c : B)
      → (0 == my_id || alive 0) ≡ true
      → get_two (copy_to alive my_id mem 0 shift (b ∷ c ∷ [])) 0 shift ≡ b ∷ c ∷ []
  unfolding copy_to
  copy_here alive my_id mem shift b c e = rw (copy_to, e) (get_two-put_all mem 0 shift b c)

  write_keeps :
      (alive : ℕ → Bool) (my_id : ℕ) (ids : List ℕ) (mem : Area B) (index : ℕ) (b c : B)
      → (0 == my_id || alive 0) ≡ true
      → get_two mem 0 (get_shift (index * data_blocks)) ≡ b ∷ c ∷ []
      → get_two
          (write_block alive my_id ids mem index (b ∷ c ∷ []))
          0
          (get_shift (index * data_blocks))
        ≡ b ∷ c ∷ []
  unfolding write_block
  write_keeps alive my_id [] mem index b c up e = e
  write_keeps alive my_id (i ∷ ids) mem index b c up e =
      let shift = get_shift (index * data_blocks) in
      elim (Bool-cases (i == 0)) [
        | inl z ↦
            let at : i ≡ 0 = ground arith in
            write_keeps alive my_id ids (copy_to alive my_id mem i shift (b ∷ c ∷ [])) index b c up
              (ap (λ k. get_two (copy_to alive my_id mem k shift (b ∷ c ∷ [])) 0 shift) at
                ∙ copy_here alive my_id mem shift b c up)
        | inr z ↦
            write_keeps alive my_id ids (copy_to alive my_id mem i shift (b ∷ c ∷ [])) index b c up
              (copy_aside alive my_id mem i shift shift b c (inl (ground arith)) ∙ e)
      ]

  -- The copies at other nodes are no copy at node 0.
  write_aside :
      (alive : ℕ → Bool) (my_id : ℕ) (ids : List ℕ) (mem : Area B) (index place : ℕ) (b c : B)
      → (place + 2 * block_bytes ≤ get_shift (index * data_blocks))
        ⊎ (get_shift (index * data_blocks) + 2 * block_bytes ≤ place)
      → get_two (write_block alive my_id ids mem index (b ∷ c ∷ [])) 0 place ≡ get_two mem 0 place
  unfolding write_block
  write_aside alive my_id [] mem index place b c apart = refl
  write_aside alive my_id (i ∷ ids) mem index place b c apart =
      write_aside alive my_id ids _ index place b c apart
      ∙ copy_aside alive my_id mem i (get_shift (index * data_blocks)) place b c (inr apart)

  write-Holds :
      (ids : List ℕ) (mem : Area B) (pages : ℕ → B × B) (limit : ℕ) (w : Write B)
      → limit * 4096 < 2 ^ 64
      → w.index < limit
      → (0 == w.writer || w.alive 0) ≡ true
      → Holds B limit mem pages
      → Holds B limit
          (write_block w.alive w.writer (0 ∷ ids) mem w.index (w.first ∷ w.second ∷ []))
          (update pages w.index (w.first, w.second))
  unfolding write_block
  write-Holds ids mem pages limit w small inside up held index below =
      let page = w.first ∷ w.second ∷ [] in
      let shift = get_shift (w.index * data_blocks) in
      elim (Bool-cases (index == w.index)) [
        | inl same ↦
            let at : index ≡ w.index = ground arith in
            let new : update pages w.index (w.first, w.second) index ≡ (w.first, w.second) =
              ground arith in
            ap
              (λ i.
                get_two (write_block w.alive w.writer (0 ∷ ids) mem w.index page) 0
                  (get_shift (i * data_blocks)))
              at
            ∙ write_keeps w.alive w.writer ids _ w.index w.first w.second up
                (copy_here w.alive w.writer mem shift w.first w.second up)
            ∙ sym (ap (λ u. u.0 ∷ u.1 ∷ []) new)
        | inr other ↦
            let old : update pages w.index (w.first, w.second) index ≡ pages index = ground arith in
            write_aside w.alive w.writer (0 ∷ ids) mem w.index (get_shift (index * data_blocks))
              w.first w.second
              (ground (arith, page_place index (omega arith), page_place w.index (omega arith)))
            ∙ held index below
            ∙ sym (ap (λ u. u.0 ∷ u.1 ∷ []) old)
      ]

  writes-Holds :
      (ids : List ℕ) (mem : Area B) (pages : ℕ → B × B) (limit : ℕ) (ws : List (Write B))
      → limit * 4096 < 2 ^ 64
      → AllReach B limit ws
      → Holds B limit mem pages
      → Holds B limit (run_writes B (0 ∷ ids) mem ws) (array_writes B pages ws)
  writes-Holds ids mem pages limit [] small reach held = held
  writes-Holds ids mem pages limit (w ∷ ws) small reach held =
      writes-Holds ids
        (write_block w.alive w.writer (0 ∷ ids) mem w.index (w.first ∷ w.second ∷ []))
        (update pages w.index (w.first, w.second)) limit ws small reach.1
        (write-Holds ids mem pages limit w small reach.0.0 reach.0.1 held)

  -- With node 0 first in the configuration, pages below a limit of 2^64 bytes, and after any writes that node
  -- 0 took part in, whichever other nodes did: a read gives what an array has after the same writes, when it is by
  -- node 0 or is carried out there.
  pub replicas_implement_array :
      (ids : List ℕ) (mem : Area B) (pages : ℕ → B × B) (limit : ℕ) (ws : List (Write B))
      (carried_out : Bool) (my_id index : ℕ) (held : List B)
      → limit * 4096 < 2 ^ 64
      → AllReach B limit ws
      → Holds B limit mem pages
      → index < limit
      → (0 == my_id || carried_out) ≡ true
      → read_block carried_out my_id (run_writes B (0 ∷ ids) mem ws) held index
        ≡ (array_writes B pages ws index).0 ∷ (array_writes B pages ws index).1 ∷ []
  unfolding read_block
  replicas_implement_array ids mem pages limit ws carried_out my_id index held small reach holds
        below there =
      let page = writes-Holds ids mem pages limit ws small reach holds index below in
      elim (Bool-cases (0 == my_id)) [
        | inl own ↦ rw own page
        | inr other ↦
            let carried : carried_out ≡ true = ground (arith, there, other) in
            rw (other, carried) page
      ]

-- With two groups of nodes the last page below the capacity is not inside of a node's memory.
pub two_groups_overflow :
    (area_size limit : ℕ)
    → 4096 ≤ area_size
    → area_size < 2 ^ 60
    → capacity 6 area_size ≡ some limit
    → area_size < get_shift ((limit - 1) * data_blocks) + 4096
unfolding capacity get_shift
two_groups_overflow area_size limit big small e =
    let count : limit ≡ 2 * (area_size / 2048 / 2) = ground (arith, e) in omega (arith, count)
