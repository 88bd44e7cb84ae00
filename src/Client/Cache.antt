-- ===== src/Client/Cache.antt =====
-- include/fs/lru_cache.h: the cache, with text keys and any data. The map is the list of its entries
-- in the order of the keys. The mutex is held for the whole of a step, so a step is a function;
-- `set` lets it go around `lru_remove`, and the model has no other thread in between. `time(NULL)` is
-- the argument `now`.
use undergraduate_project.Shared.{
  ℕ, suc, ◌+◌, ◌-◌, ◌/◌, ◌%◌, ◌^◌, ltb, leb, ◌==◌, if◌then◌else◌, Bool, true, false, ◌&&◌, ◌||◌,
  Option, none, some, List, [], ◌∷◌, ℤ, pos, negsuc, Text, text_eq, length,
}

pub record CacheData {ℓ} (V : Type ℓ) : Type ℓ where
  pub begin_time : ℕ
  pub update_time : ℕ
  pub expire_time : ℤ
  pub count : ℕ
  pub content : V

abbrev pub Entries {ℓ} : Type ℓ → Type ℓ
Entries V = List (Text × CacheData V)

pub record LruCache {ℓ} (V : Type ℓ) : Type ℓ where
  pub max_size : ℕ
  pub avg_expire_time : ℤ
  pub cache_map : Entries V

-- `std::string`'s `operator<`.
abbrev pub text_before : Text → Text → Bool
text_before [] [] = false
text_before [] (y ∷ ys) = true
text_before (x ∷ xs) [] = false
text_before (x ∷ xs) (y ∷ ys) = ltb x y || x == y && text_before xs ys

-- A conversion to `size_t`, and one from a `size_t` to `int`.
abbrev pub to_size : ℤ → ℕ
to_size (pos n) = n % 2 ^ 64
to_size (negsuc n) = (2 ^ 64 - suc n % 2 ^ 64) % 2 ^ 64

abbrev pub to_int : ℕ → ℤ
to_int n = let low = n % 2 ^ 32 in if ltb low (2 ^ 31) then pos low else negsuc (2 ^ 32 - suc low)

module _ {ℓ} {V : Type ℓ} where
  unfoldable pub init : ℕ → LruCache V
  init max_cache_size = record {
    max_size = max_cache_size;
    avg_expire_time = pos 0;
    cache_map = [];
  }

  unfoldable pub find : Entries V → Text → Option (CacheData V)
  find [] key = none
  find (e ∷ m) key = if text_eq e.0 key then some e.1 else find m key

  unfoldable pub erase : Entries V → Text → Entries V
  erase [] key = []
  erase (e ∷ m) key = let rest = erase m key in if text_eq e.0 key then rest else e ∷ rest

  -- A new entry in the order of the keys.
  unfoldable pub place : Entries V → Text → CacheData V → Entries V
  place [] key d = (key, d) ∷ []
  place (e ∷ m) key d =
      let rest = place m key d in if text_before key e.0 then (key, d) ∷ e ∷ m else e ∷ rest

  -- `std::map::insert`: an entry under the key that is there already stays.
  unfoldable pub insert : Entries V → Text → CacheData V → Entries V
  unfolding place find
  insert m key d = elim (find m key) [ none ↦ place m key d | some old ↦ m ]

  -- The assignments through an iterator that `find` gave.
  unfoldable pub touch : Entries V → Text → ℕ → Entries V
  touch [] key now = []
  touch (e ∷ m) key now =
      let rest = touch m key now in
      if text_eq e.0 key
      then (e.0, record e.1 { count = e.1.count + 1; update_time = now }) ∷ m
      else e ∷ rest

  unfoldable pub get : LruCache V → ℕ → Text → Option V × LruCache V
  unfolding find
  get c now key = elim (find c.cache_map key) [
    | none ↦ (none, c)
    | some d ↦ (some d.content, record c { cache_map = touch c.cache_map key now })
  ]

  unfoldable pub weight : CacheData V → ℕ
  weight d = (d.count + d.update_time) % 2 ^ 64

  -- The scan for the entry to leave, with the best one so far.
  unfoldable pub least : Entries V → Text → ℕ → Text
  unfolding weight
  least [] key w = key
  least (e ∷ m) key w =
      let here = least m e.0 (weight e.1) in
      let rest = least m key w in if ltb (weight e.1) w then here else rest

  unfoldable pub lru_remove : LruCache V → Bool × LruCache V
  unfolding least erase
  lru_remove c = elim c.cache_map [
    | [] ↦ (false, c)
    | e ∷ m ↦ (true, record c { cache_map = erase c.cache_map (least m e.0 (weight e.1)) })
  ]

  abbrev pub new_data : ℕ → V → ℤ → CacheData V
  new_data now v expire_time = record {
    begin_time = now;
    update_time = now;
    expire_time = expire_time;
    count = 0;
    content = v;
  }

  unfoldable pub set : LruCache V → ℕ → Text → V → ℤ → Bool × LruCache V
  unfolding lru_remove insert
  set c now key v expire_time =
      let c' = if leb c.max_size (length c.cache_map) then (lru_remove c).1 else c in
      (true, record c' { cache_map = insert c'.cache_map key (new_data now v expire_time) })

  unfoldable pub remove : LruCache V → Text → Bool × LruCache V
  remove c key = elim (find c.cache_map key) [
    | none ↦ (false, c)
    | some d ↦ (true, record c { cache_map = erase c.cache_map key })
  ]

  abbrev pub is_expired : ℕ → CacheData V → Bool
  is_expired now d = elim d.expire_time [
    | pos limit ↦ leb (d.update_time + limit) now
    | negsuc n ↦ false
  ]

  unfoldable pub keep_fresh : ℕ → Entries V → Entries V
  keep_fresh now [] = []
  keep_fresh now (e ∷ m) =
      let rest = keep_fresh now m in if is_expired now e.1 then rest else e ∷ rest

  unfoldable pub sum_expire : Entries V → ℕ
  sum_expire [] = 0
  sum_expire (e ∷ m) = (to_size e.1.expire_time + sum_expire m) % 2 ^ 64

  -- The number of entries that left. `sum` is negative where most entries do not expire, and the
  -- division takes it as a `size_t`.
  unfoldable pub lru_expire : LruCache V → ℕ → ℕ × LruCache V
  unfolding keep_fresh sum_expire
  lru_expire c now =
      let left = keep_fresh now c.cache_map in
      let avg =
        if length left == 0
        then c.avg_expire_time
        else to_int (sum_expire c.cache_map / length left) in
      (length c.cache_map - length left, record c { cache_map = left; avg_expire_time = avg })
