-- ===== src/Rdma/Regions.antt =====
-- `getReadRegion`, `getWriteRegion` and their counterparts: a buffer is a slot of a peer's bitmap. The
-- two kinds of region have the same code, and `base` is the region's address.
use undergraduate_project.Shared.{
  ℕ, ◌+◌, ◌-◌, ◌*◌, ◌/◌, ◌^◌, ◌≤◌, ◌<◌, ◌≡◌, refl, sym, ◌⊎◌, inl, inr, arith, Option, none, some,
  List, [], ◌∷◌,
}
use undergraduate_project.Bitmap.Alloc.{
  Round, Outcome, allocated, exhausted, running, alloc_bit, free_bit, IsClaim,
}
use undergraduate_project.Bitmap.Loops.{AllWords, alloc_bit-IsClaim}

-- `NConcurrency` and `Block4K::capacity`.
abbrev pub concurrency : ℕ
concurrency = 32

abbrev pub region_bytes : ℕ
region_bytes = 4096

-- A call of `allocBit`: the word that it loads, and what its exchanges meet.
abbrev pub Attempt : Type 0
Attempt = ℕ × List Round

-- The address, and the word that the exchange wrote; `none` while the loop runs.
unfoldable pub get_region : ℕ → List Attempt → Option (ℕ × ℕ)
get_region base [] = none
get_region base (a ∷ rest) =
    let later = get_region base rest in
    elim (alloc_bit concurrency a.0 a.1) [
      | allocated i word ↦ some (base + i * region_bytes, word)
      | exhausted ↦ later
      | running ↦ none
    ]

unfoldable pub free_region : ℕ → ℕ → List Round → Option ℕ
free_region base addr rounds = free_bit ((addr - base) / region_bytes) rounds

abbrev pub AllAttempts : List Attempt → Type 0
AllAttempts [] = Unit
AllAttempts (a ∷ rest) = (a.0 < 2 ^ concurrency) × AllWords concurrency a.1 × AllAttempts rest

pub slot_of : (base i : ℕ) → (base + i * region_bytes - base) / region_bytes ≡ i
slot_of base i = omega arith

Outcome-cases :
    (o : Outcome)
    → ((i : ℕ) × (word : ℕ) × (o ≡ allocated i word)) ⊎ (o ≡ exhausted) ⊎ (o ≡ running)
Outcome-cases (allocated i word) = inl (i, word, refl)
Outcome-cases exhausted = inr (inl refl)
Outcome-cases running = inr (inr refl)

-- A region that is given has a free slot claimed for it and lies inside the peer's buffer, and giving
-- its address back frees that very slot.
pub get_region_claims :
    (base : ℕ) (attempts : List Attempt) (addr word : ℕ)
    → AllAttempts attempts
    → get_region base attempts ≡ some (addr, word)
    → (x : ℕ) × (i : ℕ) × IsClaim concurrency x i word
      × (base ≤ addr)
      × (addr + region_bytes ≤ base + concurrency * region_bytes)
      × ((rounds : List Round) → free_region base addr rounds ≡ free_bit i rounds)
unfolding get_region free_region
get_region_claims base [] addr word all e = absurd (ground arith)
get_region_claims base (a ∷ rest) addr word all e =
    elim (Outcome-cases (alloc_bit concurrency a.0 a.1)) [
      | inl (i, w, done) ↦
          let claim = alloc_bit-IsClaim concurrency a.0 a.1 i w all.0 all.1 done in
          let same : (base + i * region_bytes ≡ addr) × (w ≡ word) = ground arith in
          rw (sym same.0, sym same.1)
            (
              claim.0,
              i,
              claim.2,
              omega arith,
              omega (arith, claim.2.in_range),
              λ rounds. rw (slot_of base i) refl,
            )
      | inr (inl full) ↦ get_region_claims base rest addr word all.2 (rw (get_region, full) at e)
      | inr (inr more) ↦ absurd (ground arith)
    ]
