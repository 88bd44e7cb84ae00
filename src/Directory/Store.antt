-- ===== src/Directory/Store.antt =====
-- The state of `DMStore`, its access to inodes, and the resolution of paths.
-- Locals that the source leaves uninitialised are arguments called `junk`.
use undergraduate_project.Shared.{
  ℕ, Text, bytes, text_eq, colon_key, ℤ, success, failure, Option, none, some, List, [], ◌∷◌, ◌>>=◌,
  if◌then◌else◌, drop,
}
use undergraduate_project.External.{CacheDb, Archive, PathLib}
use undergraduate_project.Storage.KvStore
use undergraduate_project.Storage.KvStore.{KvStore}
use undergraduate_project.Storage.EntryList
use undergraduate_project.Storage.EntryList.{EntryList}
use undergraduate_project.Directory.Inode.{DirectoryInode, DirFields, serialize, deserialize}

pub record DmStore (kc : CacheDb) : Type 0 where
  pub dm_store : KvStore kc
  pub uuid_store : KvStore kc
  pub ec_store : EntryList
  pub uuid_counter : ℕ

abbrev pub init : (kc : CacheDb) → DmStore kc
init kc = record {
  dm_store = KvStore.init_db;
  uuid_store = KvStore.init_db;
  ec_store = EntryList.empty;
  uuid_counter = 0;
}

abbrev pub root_path : Text
root_path = bytes "/"

abbrev pub root_uuid : Text
root_uuid = bytes "0"

module _ {kc : CacheDb} (ar : Archive DirFields) where
  -- The inode is written to only if the key is there.
  unfoldable pub get_value : DmStore kc → Text → DirectoryInode → ℤ × DirectoryInode
  get_value s uuid di = elim (KvStore.get_value s.dm_store uuid) [
    | none ↦ (failure, di)
    | some value ↦ (success, deserialize (ar.load value) di)
  ]

  unfoldable pub set_value : DmStore kc → Text → DirectoryInode → ℤ × DmStore kc
  set_value s uuid di =
      let done = KvStore.set_value s.dm_store uuid (ar.save (serialize di)) in
      (if done.0 then success else failure, record s { dm_store = done.1 })

-- The loop of `get_uuid`: each component is looked up under the uuid of the one before it.
unfoldable pub walk : (Text → Option Text) → Text → List Text → Option Text
walk look value [] = some value
walk look value (v ∷ vbuf) = look (colon_key value v) >>= λ next. walk look next vbuf

-- The loop of `get_2_uuid`, which also keeps the uuid before the last.
unfoldable pub walk_2 : (Text → Option Text) → Text → Text → List Text → Option (Text × Text)
walk_2 look puuid uuid [] = some (puuid, uuid)
walk_2 look puuid uuid (v ∷ vbuf) = look (colon_key uuid v) >>= λ next. walk_2 look uuid next vbuf

-- The components of a path from the second on; the empty path is not split and has none.
unfoldable pub components : PathLib → Text → List Text
components fs path = elim path [ [] ↦ [] | c ∷ rest ↦ drop 1 (fs.split_slash (c ∷ rest)) ]

module _ {kc : CacheDb} (fs : PathLib) where
  abbrev pub look : DmStore kc → Text → Option Text
  look s key = KvStore.get_value s.uuid_store key

  -- The out parameter is written only on success, so a failure is `none`.
  unfoldable pub get_uuid : DmStore kc → Text → Option Text
  get_uuid s path =
      if text_eq path root_path
      then some root_uuid
      else walk (look s) root_uuid (components fs path)

  -- (`puuid`, `uuid`); every caller returns at once on a failure.
  unfoldable pub get_2_uuid : DmStore kc → Text → Option (Text × Text)
  get_2_uuid s path =
      if text_eq path root_path
      then some (root_uuid, root_uuid)
      else walk_2 (look s) root_uuid root_uuid (components fs path)
