-- ===== src/External.antt =====
-- The libraries that the file system is built on and whose code is not in the repository:
-- Kyoto Cabinet's `CacheDB`, Boost's archives, `boost::filesystem::path` and the string algorithms.
-- Each is a record of its operations and of what its documentation says about them.
use undergraduate_project.Shared.{
  Text, text_eq, ◌≡◌, Bool, true, false, ◌&&◌, Option, none, some, List, [], if◌then◌else◌,
}

-- `kyotocabinet::CacheDB`, opened for writing. `set` and `remove` report whether they were done,
-- and a call that was not done leaves every record as it was.
pub record CacheDb : Type 1 where
  pub Db : Type 0
  pub opened : Db
  pub get : Db → Text → Option Text
  pub set : Db → Text → Text → Bool × Db
  pub remove : Db → Text → Bool × Db
  pub get-opened : (k : Text) → get opened k ≡ none
  pub get-set :
      (d : Db) (k v j : Text)
      → get (set d k v).1 j ≡ (if (set d k v).0 && text_eq k j then some v else get d j)
  pub get-remove :
      (d : Db) (k j : Text)
      → get (remove d k).1 j ≡ (if (remove d k).0 && text_eq k j then none else get d j)
  pub remove_absent : (d : Db) (k : Text) → get d k ≡ none → (remove d k).0 ≡ false

-- A database whose writes and whose removals of a record that is there are all done.
pub record IsWritable (kc : CacheDb) : Type 0 where
  pub set_done : (d : kc.Db) (k v : Text) → (kc.set d k v).0 ≡ true
  pub remove_done : (d : kc.Db) (k v : Text) → kc.get d k ≡ some v → (kc.remove d k).0 ≡ true

-- `boost::archive::text_oarchive` and `text_iarchive` for values of one type.
pub record Archive (A : Type 0) : Type 0 where
  pub save : A → Text
  pub load : Text → A
  pub load-save : (a : A) → load (save a) ≡ a

-- `boost::split` by a set of one character with `token_compress_on`, `boost::join`, and
-- `boost::filesystem::path`.
pub record PathLib : Type 0 where
  pub split_slash : Text → List Text
  pub split_colon : Text → List Text
  pub split_tab : Text → List Text
  pub join : List Text → Text → Text
  pub parent_path : Text → Text
  pub filename : Text → Text
  pub join-nil : (separator : Text) → join [] separator ≡ []
