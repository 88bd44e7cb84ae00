-- ===== src/Storage/Entries.antt =====
-- Insertion and removal of a name, against each other.
use undergraduate_project.Shared.{
  append-nil, ℕ, ◌-◌, Text, assign, text_eq_refl, text_eq_ne, some, List, [], ◌∷◌, ◌++◌, length,
  success, ◌≡◌, ◌≢◌, refl, ap, ◌∙◌, arith, length-append,
}
use undergraduate_project.Storage.EntryList.{
  EntryList, insert_entry, remove_entry, without, erase_removed,
}

without-snoc : (name : Text) (fl : List Text) → without name (fl ++ name ∷ []) ≡ without name fl
without-snoc name [] = rw (text_eq_refl name) refl
without-snoc name (x ∷ fl) = rw (without-snoc name fl) refl

erase_last :
    (moved : ℕ → Text) (name : Text) (fl : List Text)
    → without name fl ≡ fl
    → erase_removed moved name (fl ++ name ∷ []) ≡ some fl
unfolding erase_removed
erase_last moved name fl h =
    let one : length (fl ++ name ∷ []) - length fl ≡ 1 =
      omega (arith, length-append fl (name ∷ [])) in
    rw (without-snoc name fl, h, one) (ap some (append-nil fl))

inserted :
    (s : EntryList) (uuid name : Text) (fl : List Text)
    → s.entry uuid ≡ some fl
    → insert_entry s uuid name ≡ (success, record { entry = assign s.entry uuid (fl ++ name ∷ []) })
unfolding insert_entry
inserted s uuid name fl h = rw (insert_entry, h) refl

removed :
    (moved : ℕ → Text) (s : EntryList) (uuid name : Text) (fl : List Text)
    → s.entry uuid ≡ some (fl ++ name ∷ [])
    → without name fl ≡ fl
    → remove_entry moved s uuid name ≡ some (success, record { entry = assign s.entry uuid fl })
unfolding remove_entry
removed moved s uuid name fl h new = rw (remove_entry, h, erase_last moved name fl new) refl

-- Removing a name that was just inserted, and was not listed before, gives the listing back, and
-- changes no other directory.
pub insert_then_remove :
    (moved : ℕ → Text) (s : EntryList) (uuid name : Text) (fl : List Text)
    → s.entry uuid ≡ some fl
    → without name fl ≡ fl
    → (s' : EntryList) × (remove_entry moved (insert_entry s uuid name).1 uuid name
        ≡ some (success, s'))
      × (s'.entry uuid ≡ some fl)
      × ((j : Text) → uuid ≢ j → s'.entry j ≡ s.entry j)
insert_then_remove moved s uuid name fl h new =
    let longer = fl ++ name ∷ [] in
    let t : EntryList = record { entry = assign s.entry uuid longer } in
    (
      record { entry = assign t.entry uuid fl },
      ap (λ r. remove_entry moved r.1 uuid name) (inserted s uuid name fl h)
          ∙ removed moved t uuid name fl (rw (text_eq_refl uuid) refl) new,
      rw (text_eq_refl uuid) refl,
      λ j n. rw (text_eq_ne uuid j n) refl,
    )
