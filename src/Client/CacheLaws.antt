-- ===== src/Client/CacheLaws.antt =====
-- The operations of the cache one after another, and its size.
use undergraduate_project.Shared.{
  ℕ, suc, ◌≤◌, ◌<◌, ltb, leb, false, none, some, [], ◌∷◌, ℤ, Text, text_eq, text_eq_refl, length,
  ◌≡◌, ◌≢◌, ◌⊎◌, inl, inr, refl, arith, Bool-cases, Option-cases,
}
use undergraduate_project.Client.Cache.{
  CacheData, Entries, LruCache, find, erase, insert, place, get, weight, least, lru_remove, set,
  new_data, remove,
}

module _ {ℓ} {V : Type ℓ} where
  find-erase : (m : Entries V) (key : Text) → find (erase m key) key ≡ none
  unfolding find erase
  find-erase [] key = refl
  find-erase (e ∷ m) key = ground (arith, find-erase m key)

  find-erase_absent :
      (m : Entries V) (other key : Text) → find m key ≡ none → find (erase m other) key ≡ none
  unfolding find erase
  find-erase_absent [] other key h = refl
  find-erase_absent (e ∷ m) other key h = ground (arith, find-erase_absent m other key)

  find-place :
      (m : Entries V) (key : Text) (d : CacheData V)
      → find m key ≡ none
      → find (place m key d) key ≡ some d
  unfolding find place
  find-place [] key d h = ground (arith, text_eq_refl key)
  find-place (e ∷ m) key d h = ground (arith, text_eq_refl key, find-place m key d)

  length-place :
      (m : Entries V) (key : Text) (d : CacheData V) → length (place m key d) ≡ suc (length m)
  unfolding place
  length-place [] key d = refl
  length-place (e ∷ m) key d = ground (arith, length-place m key d)

  pub length-insert_le :
      (m : Entries V) (key : Text) (d : CacheData V) → length (insert m key d) ≤ suc (length m)
  unfolding insert
  length-insert_le m key d = elim (Option-cases (find m key)) [
    | inl e ↦ rw (length, e) (omega (arith, length-place m key d))
    | inr e ↦ rw (length, e.1) (omega arith)
  ]

  pub length-erase_le : (m : Entries V) (key : Text) → length (erase m key) ≤ length m
  unfolding erase
  length-erase_le [] key = omega arith
  length-erase_le (e ∷ m) key = ground (arith, length-erase_le m key)

  length-erase_held :
      (m : Entries V) (key : Text) (d : CacheData V)
      → find m key ≡ some d
      → length (erase m key) < length m
  unfolding find erase
  length-erase_held [] key d h = absurd (ground arith)
  length-erase_held (e ∷ m) key d h =
      ground (arith, length-erase_le m key, length-erase_held m key d)

  found_later :
      (e : Text × CacheData V) (m : Entries V) (key : Text) (d : CacheData V)
      → find m key ≡ some d
      → (d' : CacheData V) × (find (e ∷ m) key ≡ some d')
  unfolding find
  found_later e m key d h = elim (Bool-cases (text_eq e.0 key)) [
    | inl y ↦ (e.1, rw y refl)
    | inr n ↦ (d, rw (n, h) refl)
  ]

  found_first : (e : Text × CacheData V) (m : Entries V) → find (e ∷ m) e.0 ≡ some e.1
  unfolding find
  found_first e m = rw (text_eq_refl e.0) refl

  -- The key that the scan chooses is the one so far, or that of an entry.
  find-least :
      (m : Entries V) (key : Text) (w : ℕ)
      → (least m key w ≡ key) ⊎ ((d : CacheData V) × (find m (least m key w) ≡ some d))
  unfolding least
  find-least [] key w = inl refl
  find-least (e ∷ m) key w = elim (Bool-cases (ltb (weight e.1) w)) [
    | inl y ↦ rw y (
        inr (elim (find-least m e.0 (weight e.1)) [
          | inl same ↦ rw same (e.1, found_first e m)
          | inr later ↦ found_later e m _ later.0 later.1
        ]))
    | inr n ↦ rw n (elim (find-least m key w) [
      | inl same ↦ inl same
      | inr later ↦ inr (found_later e m _ later.0 later.1)
    ])
  ]

  -- The first entry or the one the scan chose is there to be erased.
  chosen_found :
      (e : Text × CacheData V) (m : Entries V)
      → (d : CacheData V) × (find (e ∷ m) (least m e.0 (weight e.1)) ≡ some d)
  chosen_found e m = elim (find-least m e.0 (weight e.1)) [
    | inl same ↦ rw same (e.1, found_first e m)
    | inr later ↦ found_later e m _ later.0 later.1
  ]

  pub shorter :
      (c : LruCache V) (m : Entries V)
      → c.cache_map ≡ m
      → length m ≢ 0
      → length (lru_remove c).1.cache_map < length m
  unfolding lru_remove
  shorter c [] h ne = absurd (ne refl)
  shorter c (e ∷ m) h ne =
      let there = chosen_found e m in rw h (length-erase_held (e ∷ m) _ there.0 there.1)

  -- Removing an entry makes no other key present.
  find-lru_remove :
      (c : LruCache V) (m : Entries V) (key : Text)
      → c.cache_map ≡ m
      → find m key ≡ none
      → find (lru_remove c).1.cache_map key ≡ none
  unfolding lru_remove
  find-lru_remove c [] key h absent = rw h absent
  find-lru_remove c (e ∷ m) key h absent =
      rw h (find-erase_absent (e ∷ m) (least m e.0 (weight e.1)) key absent)

  find-insert :
      (m : Entries V) (key : Text) (d : CacheData V)
      → find m key ≡ none
      → find (insert m key d) key ≡ some d
  unfolding insert
  find-insert m key d h = rw (insert, h) (find-place m key d h)

  pub get_found :
      (c : LruCache V) (now : ℕ) (key : Text) (d : CacheData V)
      → find c.cache_map key ≡ some d
      → (get c now key).0 ≡ some d.content
  unfolding get
  get_found c now key d h = rw (get, h) refl

  -- After `set` under a key that was not there, `get` gives the data, also if an entry had to leave.
  pub set_get :
      (c : LruCache V) (now later : ℕ) (key : Text) (v : V) (expire_time : ℤ)
      → find c.cache_map key ≡ none
      → (get (set c now key v expire_time).1 later key).0 ≡ some v
  unfolding set
  set_get c now later key v expire_time h =
      elim (Bool-cases (leb c.max_size (length c.cache_map))) [
        | inl full ↦
            get_found _ later key (new_data now v expire_time)
              (rw full (find-insert _ key _ (find-lru_remove c c.cache_map key refl h)))
        | inr room ↦
            get_found _ later key (new_data now v expire_time) (rw room (find-insert _ key _ h))
      ]

  -- While there is room, `set` under a key that is there changes nothing: `get` gives the old data.
  pub set_held :
      (c : LruCache V) (now later : ℕ) (key : Text) (v : V) (expire_time : ℤ) (old : CacheData V)
      → find c.cache_map key ≡ some old
      → length c.cache_map < c.max_size
      → (get (set c now key v expire_time).1 later key).0 ≡ some old.content
  unfolding set get insert
  set_held c now later key v expire_time old h room =
      let has_room : leb c.max_size (length c.cache_map) ≡ false = ground arith in
      get_found _ later key old (rw has_room (rw (insert, h) h))

  -- A cache with room for one entry or more never holds more than its bound.
  pub set_bounded :
      (c : LruCache V) (now : ℕ) (key : Text) (v : V) (expire_time : ℤ)
      → length c.cache_map ≤ c.max_size
      → 0 < c.max_size
      → length (set c now key v expire_time).1.cache_map ≤ c.max_size
  unfolding set
  set_bounded c now key v expire_time h room =
      elim (Bool-cases (leb c.max_size (length c.cache_map))) [
        | inl full ↦ rw full (
            omega (
              arith,
              length-insert_le (lru_remove c).1.cache_map key (new_data now v expire_time),
              shorter c c.cache_map refl (ground arith),
            ))
        | inr left ↦
            rw left (ground (arith, length-insert_le c.cache_map key (new_data now v expire_time)))
      ]

  -- What was removed is not there.
  pub remove_get : (c : LruCache V) (now : ℕ) (key : Text) → (get (remove c key).1 now key).0 ≡ none
  unfolding remove get
  remove_get c now key = elim (Option-cases (find c.cache_map key)) [
    | inl e ↦ rw (remove, e, get, e) refl
    | inr e ↦ rw (remove, e.1, get, find-erase c.cache_map key) refl
  ]
