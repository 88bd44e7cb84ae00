-- ===== src/Storage/KvStore.antt =====
-- src/fs/KVStore.cpp: a thin layer over one `CacheDB`. `getValue` leaves its result alone when the
-- key is missing, so it returns an option here.
use undergraduate_project.Shared.{Text, Option, Bool}
use undergraduate_project.External.{CacheDb}

pub record KvStore (kc : CacheDb) : Type 0 where
  pub db : kc.Db

module _ {kc : CacheDb} where
  abbrev pub init_db : KvStore kc
  init_db = record { db = kc.opened }

  abbrev pub get_value : KvStore kc → Text → Option Text
  get_value s path = kc.get s.db path

  abbrev pub set_value : KvStore kc → Text → Text → Bool × KvStore kc
  set_value s path value = let temp = kc.set s.db path value in (temp.0, record { db = temp.1 })

  abbrev pub remove : KvStore kc → Text → Bool × KvStore kc
  remove s path = let done = kc.remove s.db path in (done.0, record { db = done.1 })
