-- ===== src/Storage/EntryList.antt =====
-- src/fs/EntryList.cpp: the names in each directory, in the order of their insertion.
use undergraduate_project.Shared.{
  ℕ, zero, suc, ◌-◌, Text, TextMap, assign, text_eq, Option, none, some, List, [], ◌∷◌, ◌++◌, bytes,
  length, ℤ, success, if◌then◌else◌, ◌==◌,
}
use undergraduate_project.External.{PathLib}

pub record EntryList : Type 0 where
  pub entry : TextMap (List Text)

abbrev pub empty : EntryList
empty = record { entry = λ k. none }

unfoldable pub insert_entry : EntryList → Text → Text → ℤ × EntryList
insert_entry s uuid file_name = elim (s.entry uuid) [
  | some fl ↦ (success, record { entry = assign s.entry uuid (fl ++ file_name ∷ []) })
  | none ↦ (success, record { entry = assign s.entry uuid (file_name ∷ []) })
]

unfoldable pub readdir : PathLib → EntryList → Text → Text
readdir fs s uuid = elim (s.entry uuid) [ some fl ↦ fs.join fl (bytes "\t") | none ↦ [] ]

-- What `std::remove` keeps.
abbrev pub without : Text → List Text → List Text
without name [] = []
without name (x ∷ xs) = let rest = without name xs in if text_eq x name then rest else x ∷ rest

-- The texts that `std::remove` has moved from, behind those that it keeps.
abbrev pub moved_tail : (ℕ → Text) → ℕ → List Text
moved_tail moved zero = []
moved_tail moved (suc n) = moved n ∷ moved_tail moved n

-- `v.erase(std::remove(v.begin(), v.end(), name))` erases ONE element. With no element to remove it
-- erases at the end, which is undefined behaviour: `none`. With several, all but one of the
-- moved-from elements stay.
unfoldable pub erase_removed : (ℕ → Text) → Text → List Text → Option (List Text)
erase_removed moved name fl =
    let kept = without name fl in
    let removed = length fl - length kept in
    if removed == 0 then none else some (kept ++ moved_tail moved (removed - 1))

unfoldable pub remove_entry : (ℕ → Text) → EntryList → Text → Text → Option (ℤ × EntryList)
unfolding erase_removed
remove_entry moved s uuid file_name = elim (s.entry uuid) [
  | none ↦ some (success, s)
  | some fl ↦ elim (erase_removed moved file_name fl) [
    | none ↦ none
    | some rest ↦ some (success, record { entry = assign s.entry uuid rest })
  ]
]
