-- ===== src/Examples/Threads.antt =====
-- Tests of include/fs/lru_cache.h under two threads: both find the cache full, both remove, both insert.
use undergraduate_project.Shared.{
  ℕ, ◌+◌, ◌<◌, ◌≡◌, refl, [], ◌∷◌, pos, negsuc, bytes, length, update, arith, zero, suc, Text,
}
use undergraduate_project.Client.Cache.{CacheData, LruCache, insert, lru_remove, new_data}
use undergraduate_project.Client.CacheThreads.{
  outside, unlocked, removed, Threads, set_full, set_remove, set_insert, Reach, here, later,
  cache_bounded_by_threads,
}

abbrev data_of : ℕ → CacheData ℕ
data_of n = new_data 1 n (negsuc 0)

abbrev one_entry : LruCache ℕ
one_entry = record {
  max_size = 1;
  avg_expire_time = pos 0;
  cache_map = (bytes "/a", data_of 7) ∷ [];
}

abbrev before : Threads ℕ
before = record { cache = one_entry; phase = λ i. outside }

abbrev emptied : LruCache ℕ
emptied = (lru_remove (lru_remove one_entry).1).1

abbrev after : Threads ℕ
after = record {
  cache = record emptied {
    cache_map = insert (insert emptied.cache_map (bytes "/b") (data_of 8)) (bytes "/c") (data_of 9);
  };
  phase =
      update
        (update
          (update
            (update
              (update (update before.phase 0 (unlocked (bytes "/b") (data_of 8))) 1
                (unlocked (bytes "/c") (data_of 9)))
              0 (removed (bytes "/b") (data_of 8)))
            1 (removed (bytes "/c") (data_of 9)))
          0 outside)
        1 outside;
}

both_insert : Reach ℕ 2 before after
both_insert =
    later
      (later
        (later
          (later
            (later
              (later here (set_full 0 (bytes "/b") (data_of 8) (omega arith) refl (omega arith)))
              (set_full 1 (bytes "/c") (data_of 9) (omega arith) refl (omega arith)))
            (set_remove 0 (bytes "/b") (data_of 8) (omega arith) refl))
          (set_remove 1 (bytes "/c") (data_of 9) (omega arith) refl))
        (set_insert 0 (bytes "/b") (data_of 8) (omega arith) refl))
      (set_insert 1 (bytes "/c") (data_of 9) (omega arith) refl)

-- One entry too many.
two_entries : length after.cache.cache_map ≡ 2
unfolding insert lru_remove undergraduate_project.Shared.text_eq
two_entries = refl

cache_bounded_by_threads_example : length after.cache.cache_map < 1 + 2
cache_bounded_by_threads_example =
    cache_bounded_by_threads ℕ 2 before after (omega arith) (omega arith) (omega arith) (λ i. refl)
      both_insert
