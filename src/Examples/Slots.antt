-- ===== src/Examples/Slots.antt =====
-- Tests of include/bitmap.hpp on a bitmap of 8 slots.
use undergraduate_project.Shared.{◌+◌, ◌≡◌, refl, false, [], ◌∷◌, arith}
use undergraduate_project.Bitmap.Words.{testbit, ffs, negate, complement}
use undergraduate_project.Bitmap.Alloc.{Round, alloc_bit, exchanges, claimed}
use undergraduate_project.Bitmap.Owners.{Reach, Step, owners, slots_never_shared}

abbrev full_round : Round
full_round = record { loaded = 255; current = 255; spurious = false }

abbrev busy_round : Round
busy_round = record { loaded = 254; current = 254; spurious = false }

one_taken : Step 8 (record { word = 255; held = [] }) (record { word = 254; held = 0 ∷ [] })
unfolding alloc_bit exchanges ffs claimed negate complement
one_taken = Step.take full_round 0 refl refl

slots_never_shared_example : testbit 254 0 + owners 0 (0 ∷ []) ≡ 1
slots_never_shared_example =
    slots_never_shared 8 (record { word = 254; held = 0 ∷ [] }) (Reach.next Reach.here one_taken) 0
      (omega arith)
