-- ===== src/Ecal/Lending.antt =====
-- What `readBlock` and `writeBlock` do with the regions that they borrow.
use Prim.Native.Nat.{bit_or}
use undergraduate_project.Shared.{
  ℕ, ◌+◌, ◌*◌, ◌^◌, ◌<◌, ◌≡◌, refl, ◌∙◌, arith, ◌==◌, true, false, some, List, [], ◌∷◌, map, update,
  Bool-cases, inl, inr,
}
use undergraduate_project.Bitmap.Alloc.{claimed}
use undergraduate_project.Bitmap.GivenBack.{slot, alloc_alone, free_alone, claim_then_free}
use undergraduate_project.Rdma.Regions.{concurrency, region_bytes, get_region, free_region, slot_of}
use undergraduate_project.Ecal.Code.{IsaL}
use undergraduate_project.Ecal.Blocks.{Memory, node_of}
use undergraduate_project.Ecal.Transfers.{
  Source, own_block, region, Regions, take_region, give_region, put, fetch, fetch_all, contents,
  release,
}

-- Every peer has a free region, in a bitmap of its width.
abbrev pub HasRoom : (ℕ → ℕ) → Type 0
HasRoom word = (peer : ℕ) → (0 < word peer) × (word peer < 2 ^ concurrency)

module _ (isa : IsaL) (base : ℕ → ℕ) where
  abbrev pub lent_addr : Regions isa → ℕ → ℕ
  lent_addr s peer = base peer + slot concurrency (s.word peer) * region_bytes

  abbrev pub taken : Regions isa → ℕ → Regions isa
  taken s peer = record s { word = update s.word peer (claimed concurrency (s.word peer)) }

  pub take_there :
      (s : Regions isa) (peer : ℕ)
      → 0 < s.word peer
      → take_region isa base s peer ≡ some (lent_addr s peer, taken s peer)
  unfolding take_region get_region
  take_there s peer some_free =
      rw (take_region, get_region, alloc_alone concurrency (s.word peer) some_free) refl

  give_there :
      (s : Regions isa) (peer i : ℕ)
      → give_region isa base s peer (base peer + i * region_bytes)
        ≡ some (record s { word = update s.word peer (bit_or (s.word peer) (2 ^ i)) })
  unfolding give_region free_region
  give_there s peer i =
      rw (give_region, free_region, slot_of (base peer) i, free_alone i (s.word peer)) refl

  -- What a region that was lent looks like afterwards, and what giving it back does.
  record Lent (my_id : ℕ) (mem : Memory isa) (shift : ℕ) (s : Regions isa) (peer : ℕ) : Type 0 where
    after : Regions isa
    lent : fetch isa base my_id mem shift s peer ≡ some (region peer (lent_addr s peer), after)
    word_there : after.word peer ≡ claimed concurrency (s.word peer)
    word_aside : (r : ℕ) → (r == peer) ≡ false → after.word r ≡ s.word r
    block_there : after.buffer peer (lent_addr s peer) ≡ mem peer shift
    block_aside : (r : ℕ) → (r == peer) ≡ false → (a : ℕ) → after.buffer r a ≡ s.buffer r a

  fetch_own :
      (my_id : ℕ) (mem : Memory isa) (shift : ℕ) (s : Regions isa) (peer : ℕ)
      → (peer == my_id) ≡ true
      → fetch isa base my_id mem shift s peer ≡ some (own_block, s)
  unfolding fetch
  fetch_own my_id mem shift s peer own = ground arith

  fetch_other :
      (my_id : ℕ) (mem : Memory isa) (shift : ℕ) (s : Regions isa) (peer : ℕ)
      → (peer == my_id) ≡ false
      → 0 < s.word peer
      → Lent my_id mem shift s peer
  unfolding fetch
  fetch_other my_id mem shift s peer other some_free = record {
    after = put isa (taken s peer) peer (lent_addr s peer) (mem peer shift);
    lent = rw (take_there s peer some_free, other) refl;
    word_there = ground arith;
    word_aside = λ r ne. ground arith;
    block_there = ground arith;
    block_aside = λ r ne a. ground arith;
  }

  pub give_back :
      (t : Regions isa) (peer word : ℕ)
      → t.word peer ≡ claimed concurrency word
      → 0 < word
      → word < 2 ^ concurrency
      → (u : Regions isa) × (give_region isa base t peer
            (base peer + slot concurrency word * region_bytes)
          ≡ some u)
        × (u.word peer ≡ word)
        × ((r : ℕ) → (r == peer) ≡ false → u.word r ≡ t.word r)
  give_back t peer word there some_free fits =
      let back = claim_then_free concurrency word some_free fits in
      (
        _,
        give_there t peer (slot concurrency word),
        rw there (ground (arith, back.1)),
        λ r ne. ground arith,
      )

  -- The contents of two blocks are those of the memory, and every region of them can be given back.
  pub record Served (my_id : ℕ) (mem : Memory isa) (start shift : ℕ) (s : Regions isa) (j k : ℕ)
      : Type 0 where
    pub sources : List Source
    pub then_lent : Regions isa
    pub at_end : Regions isa
    pub fetched :
        fetch_all isa base my_id mem start shift s (j ∷ k ∷ []) ≡ some (sources, then_lent)
    pub right :
        map (contents isa base my_id mem shift then_lent) sources
        ≡ mem (node_of isa start j) shift ∷ mem (node_of isa start k) shift ∷ []
    pub given : release isa base then_lent sources ≡ some at_end
    pub restored : (r : ℕ) → at_end.word r ≡ s.word r

  back_as_before :
      (s t u : Regions isa) (p : ℕ)
      → u.word p ≡ s.word p
      → ((r : ℕ) → (r == p) ≡ false → u.word r ≡ t.word r)
      → ((r : ℕ) → (r == p) ≡ false → t.word r ≡ s.word r)
      → (r : ℕ) → u.word r ≡ s.word r
  back_as_before s t u p there aside before r = elim (Bool-cases (r == p)) [
    | inl same ↦ (let e : r ≡ p = ground arith in rw e there)
    | inr ne ↦ aside r ne ∙ before r ne
  ]

  module _ (my_id : ℕ) (mem : Memory isa) (start shift : ℕ) (s : Regions isa) (j k : ℕ)
      (room : HasRoom s.word) where
    serve_second :
        (node_of isa start j == my_id) ≡ true
        → (node_of isa start k == my_id) ≡ false
        → Served my_id mem start shift s j k
    unfolding fetch_all release
    serve_second own_p other_q =
        let p = node_of isa start j in
        let q = node_of isa start k in
        let here : p ≡ my_id = ground arith in
        let b = fetch_other my_id mem shift s q other_q (room q).0 in
        let back = give_back b.after q (s.word q) b.word_there (room q).0 (room q).1 in
        record {
          sources = own_block ∷ region q (lent_addr s q) ∷ [];
          then_lent = b.after;
          at_end = back.0;
          fetched = rw (fetch_own my_id mem shift s p own_p, b.lent) refl;
          right = rw (here, b.block_there) refl;
          given = rw back.1 refl;
          restored = back_as_before s b.after back.0 q back.2 back.3 b.word_aside;
        }

    serve_first :
        (node_of isa start j == my_id) ≡ false
        → (node_of isa start k == my_id) ≡ true
        → Served my_id mem start shift s j k
    unfolding fetch_all release
    serve_first other_p own_q =
        let p = node_of isa start j in
        let q = node_of isa start k in
        let here : q ≡ my_id = ground arith in
        let a = fetch_other my_id mem shift s p other_p (room p).0 in
        let back = give_back a.after p (s.word p) a.word_there (room p).0 (room p).1 in
        record {
          sources = region p (lent_addr s p) ∷ own_block ∷ [];
          then_lent = a.after;
          at_end = back.0;
          fetched = rw (a.lent, fetch_own my_id mem shift a.after q own_q) refl;
          right = rw (here, a.block_there) refl;
          given = rw back.1 refl;
          restored = back_as_before s a.after back.0 p back.2 back.3 a.word_aside;
        }

    serve_both :
        (node_of isa start k == node_of isa start j) ≡ false
        → (node_of isa start j == my_id) ≡ false
        → (node_of isa start k == my_id) ≡ false
        → Served my_id mem start shift s j k
    unfolding fetch_all release
    serve_both apart other_p other_q =
        let p = node_of isa start j in
        let q = node_of isa start k in
        let apart' : (p == q) ≡ false = ground arith in
        let a = fetch_other my_id mem shift s p other_p (room p).0 in
        let word_q : a.after.word q ≡ s.word q = a.word_aside q apart in
        let b = fetch_other my_id mem shift a.after q other_q (rw word_q (room q).0) in
        let first =
          give_back b.after p (s.word p) (b.word_aside p apart' ∙ a.word_there) (room p).0
            (room p).1 in
        let second =
          give_back first.0 q (a.after.word q) (first.3 q apart ∙ b.word_there)
            (rw word_q (room q).0) (rw word_q (room q).1) in
        record {
          sources = region p (lent_addr s p) ∷ region q (lent_addr a.after q) ∷ [];
          then_lent = b.after;
          at_end = second.0;
          fetched = rw (a.lent, b.lent) refl;
          right = rw (b.block_aside p apart' (lent_addr s p), a.block_there, b.block_there) refl;
          given = rw (first.1, second.1) refl;
          restored = back_as_before s first.0 second.0 q (second.2 ∙ word_q) second.3 (λ r ne.
              elim (Bool-cases (r == p)) [
                | inl same ↦ (let e : r ≡ p = ground arith in rw e first.2)
                | inr ne' ↦ first.3 r ne' ∙ b.word_aside r ne ∙ a.word_aside r ne'
              ]);
        }

    -- Two nodes of a group are served, whichever of them is the own one.
    pub serve_two :
        (node_of isa start k == node_of isa start j) ≡ false → Served my_id mem start shift s j k
    serve_two apart = elim (Bool-cases (node_of isa start j == my_id)) [
      | inl own_p ↦
          serve_second own_p (let here : node_of isa start j ≡ my_id = ground arith in ground arith)
      | inr other_p ↦ elim (Bool-cases (node_of isa start k == my_id)) [
        | inl own_q ↦ serve_first other_p own_q
        | inr other_q ↦ serve_both apart other_p other_q
      ]
    ]
