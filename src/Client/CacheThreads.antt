-- ===== src/Client/CacheThreads.antt =====
-- The cache of include/fs/lru_cache.h under `n` threads. Every operation holds the mutex throughout but
-- `set`: on a full cache it lets the mutex go, removes an entry under a lock of its own, and takes the
-- mutex again to insert. The thread that expires entries is one of the threads.
use undergraduate_project.Shared.{
  ℕ, zero, suc, ◌+◌, ◌-◌, ◌≤◌, ◌<◌, ◌≡◌, refl, ◌∙◌, arith, Bool, true, false, [], ◌∷◌, Text, length,
  update, Option-cases, inl, inr, count_below, count_below-le, count_below-update, count_below_one,
}
use undergraduate_project.Client.Cache.{
  CacheData, Entries, LruCache, find, insert, touch, get, lru_remove, remove, keep_fresh,
  lru_expire,
}
use undergraduate_project.Client.CacheLaws.{length-insert_le, length-erase_le, shorter}

module _ {ℓ} (V : Type ℓ) where
  -- Where a thread stands in `set`, with the key and the entry that it has made.
  pub data Phase : Type ℓ where
    outside : Phase
    unlocked removed : Text → CacheData V → Phase

  pub record Threads : Type ℓ where
    pub cache : LruCache V
    pub phase : ℕ → Phase

  -- Lines 90 to 93, 94, and 95 to 98.
  pub data Step (n : ℕ) (s : Threads) : Threads → Type ℓ where
    set_room :
        (i : ℕ) (key : Text) (d : CacheData V)
        → i < n
        → s.phase i ≡ outside
        → length s.cache.cache_map < s.cache.max_size
        → Step n s
            (record s { cache = record (s.cache) { cache_map = insert s.cache.cache_map key d } })
    set_full :
        (i : ℕ) (key : Text) (d : CacheData V)
        → i < n
        → s.phase i ≡ outside
        → s.cache.max_size ≤ length s.cache.cache_map
        → Step n s (record s { phase = update s.phase i (unlocked key d) })
    set_remove :
        (i : ℕ) (key : Text) (d : CacheData V)
        → i < n
        → s.phase i ≡ unlocked key d
        → Step n s
            (record { cache = (lru_remove s.cache).1; phase = update s.phase i (removed key d) })
    set_insert :
        (i : ℕ) (key : Text) (d : CacheData V)
        → i < n
        → s.phase i ≡ removed key d
        → Step n s (record {
          cache = record (s.cache) { cache_map = insert s.cache.cache_map key d };
          phase = update s.phase i outside;
        })
    getting : (now : ℕ) (key : Text) → Step n s (record s { cache = (get s.cache now key).1 })
    removing : (key : Text) → Step n s (record s { cache = (remove s.cache key).1 })
    expiring : (now : ℕ) → Step n s (record s { cache = (lru_expire s.cache now).1 })

  pub data Reach (n : ℕ) (s : Threads) : Threads → Type ℓ where
    here : Reach n s s
    later : {t u : Threads} → Reach n s t → Step n t u → Reach n s u

  abbrev pub is_removed : Phase → Bool
  is_removed (removed key d) = true
  is_removed _ = false

  -- The entries, with those that the threads are about to insert.
  pub record Inv (n bound : ℕ) (s : Threads) : Type 0 where
    pub bounded : suc (length s.cache.cache_map + count_below is_removed n s.phase) ≤ bound + n
    pub positive : 0 < bound
    pub kept : s.cache.max_size ≡ bound

  length-touch : (m : Entries V) (key : Text) (now : ℕ) → length (touch m key now) ≡ length m
  unfolding touch
  length-touch [] key now = refl
  length-touch (e ∷ m) key now = ground (arith, length-touch m key now)

  length-keep_fresh_le : (now : ℕ) (m : Entries V) → length (keep_fresh now m) ≤ length m
  unfolding keep_fresh
  length-keep_fresh_le now [] = omega arith
  length-keep_fresh_le now (e ∷ m) = ground (arith, length-keep_fresh_le now m)

  lru_remove-max_size : (c : LruCache V) → (lru_remove c).1.max_size ≡ c.max_size
  unfolding lru_remove
  lru_remove-max_size c = ground arith

  lru_remove_le :
      (c : LruCache V) (m : Entries V)
      → c.cache_map ≡ m
      → length (lru_remove c).1.cache_map ≤ length m - 1
  unfolding lru_remove
  lru_remove_le c [] h = rw h (omega arith)
  lru_remove_le c (e ∷ m) h = omega (arith, shorter c (e ∷ m) h)

  Step-Inv : {n bound : ℕ} {s t : Threads} → Step n s t → Inv n bound s → Inv n bound t
  unfolding get remove lru_expire
  Step-Inv {n} {s} (set_room i key d lt out room) inv = record {
    bounded = omega (
      arith,
      inv.bounded,
      room,
      length-insert_le s.cache.cache_map key d,
      count_below_one is_removed n s.phase i lt (ground arith),
    );
    positive = inv.positive;
    kept = inv.kept;
  }
  Step-Inv {n} {s} (set_full i key d lt out full) inv = record {
    bounded =
        ground (arith, inv.bounded, count_below-update is_removed n s.phase i (unlocked key d) lt);
    positive = inv.positive;
    kept = inv.kept;
  }
  Step-Inv {n} {s} (set_remove i key d lt at) inv = record {
    bounded = ground (
      arith,
      inv.bounded,
      inv.positive,
      lru_remove_le s.cache s.cache.cache_map refl,
      lru_remove-max_size s.cache,
      count_below-le is_removed n (update s.phase i (removed key d)),
      count_below-update is_removed n s.phase i (removed key d) lt,
    );
    positive = inv.positive;
    kept = lru_remove-max_size s.cache ∙ inv.kept;
  }
  Step-Inv {n} {s} (set_insert i key d lt at) inv = record {
    bounded = ground (
      arith,
      inv.bounded,
      length-insert_le s.cache.cache_map key d,
      count_below-update is_removed n s.phase i outside lt,
    );
    positive = inv.positive;
    kept = inv.kept;
  }
  Step-Inv {n} {s} (getting now key) inv = elim (Option-cases (find s.cache.cache_map key)) [
    | inl absent ↦ rw (get, absent) inv
    | inr (d, there) ↦
        rw (get, there)
          (record {
            bounded = omega (arith, inv.bounded, length-touch s.cache.cache_map key now);
            positive = inv.positive;
            kept = inv.kept;
          })
  ]
  Step-Inv {n} {s} (removing key) inv = elim (Option-cases (find s.cache.cache_map key)) [
    | inl absent ↦ rw (remove, absent) inv
    | inr (d, there) ↦
        rw (remove, there)
          (record {
            bounded = omega (arith, inv.bounded, length-erase_le s.cache.cache_map key);
            positive = inv.positive;
            kept = inv.kept;
          })
  ]
  Step-Inv {n} {s} (expiring now) inv = record {
    bounded = omega (arith, inv.bounded, length-keep_fresh_le now s.cache.cache_map);
    positive = inv.positive;
    kept = inv.kept;
  }

  Reach-Inv : {n bound : ℕ} {s t : Threads} → Reach n s t → Inv n bound s → Inv n bound t
  Reach-Inv here inv = inv
  Reach-Inv (later r st) inv = Step-Inv st (Reach-Inv r inv)

  none_removed :
      (n : ℕ) (f : ℕ → Phase) → ((i : ℕ) → f i ≡ outside) → count_below is_removed n f ≡ 0
  none_removed zero f idle = refl
  none_removed (suc n) f idle = ground (arith, none_removed n f idle, idle n)

  start-Inv :
      (n : ℕ) (s : Threads)
      → 0 < n
      → 0 < s.cache.max_size
      → length s.cache.cache_map ≤ s.cache.max_size
      → ((i : ℕ) → s.phase i ≡ outside)
      → Inv n s.cache.max_size s
  start-Inv n s some_thread room fits idle = record {
    bounded = omega (arith, none_removed n s.phase idle, some_thread, fits);
    positive = room;
    kept = refl;
  }

  -- From a cache within its bound that no thread is changing, whatever `n` threads do and in whatever order:
  -- the cache holds fewer entries than its bound and the number of threads together. With one
  -- thread this is the bound; with more a `set` that another one interrupts can exceed it.
  pub cache_bounded_by_threads :
      (n : ℕ) (s t : Threads)
      → 0 < n
      → 0 < s.cache.max_size
      → length s.cache.cache_map ≤ s.cache.max_size
      → ((i : ℕ) → s.phase i ≡ outside)
      → Reach n s t
      → length t.cache.cache_map < s.cache.max_size + n
  cache_bounded_by_threads n s t some_thread room fits idle r =
      omega (arith, (Reach-Inv r (start-Inv n s some_thread room fits idle)).bounded)
