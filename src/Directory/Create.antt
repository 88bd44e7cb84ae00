-- ===== src/Directory/Create.antt =====
-- `DMStore::mkdir` on the keys that are there and on a new one.
use undergraduate_project.Shared.{
  Text, text_eq_iff, colon_key, to_string, ◌≡◌, inl, inr, none, some, arith, Option-cases, ℕ,
  success,
}
use undergraduate_project.External.{CacheDb, IsWritable, Archive, PathLib}
use undergraduate_project.Storage.KvStore
use undergraduate_project.Storage.EntryList
use undergraduate_project.Directory.Inode.{DirectoryInode, DirFields, serialize}
use undergraduate_project.Directory.Store.{DmStore, set_value, look, get_uuid}
use undergraduate_project.Directory.Operations.{
  next_uuid, mkdir_key, new_inode, mkdir_entry, mkdir_inode, mkdir_at, mkdir,
}
use undergraduate_project.Directory.Resolve.{Extends, IsChildPath}

module _ {kc : CacheDb} (ar : Archive DirFields) (fs : PathLib) where
  look-mkdir_inode :
      (s : DmStore kc) (path puuid : Text) (dii : DirectoryInode)
      → (mkdir_inode ar fs s path puuid dii).1.uuid_store ≡ s.uuid_store
  unfolding mkdir_inode mkdir_entry set_value
  look-mkdir_inode s path puuid dii = ground arith

  mkdir_at-Extends :
      (s : DmStore kc) (path puuid key : Text) (dii : DirectoryInode)
      → Extends (look fs s) (look fs (mkdir_at ar fs s path puuid key dii).1)
  unfolding mkdir_at
  mkdir_at-Extends s path puuid key dii k u e = ground (
    arith,
    kc.get-set s.uuid_store.db key (to_string dii.uuid) k,
    text_eq_iff key k,
    look-mkdir_inode
        (record s { uuid_store = (KvStore.set_value s.uuid_store key (to_string dii.uuid)).1 }) path
        puuid dii,
  )

  -- Whatever `mkdir` answers, a key that was there keeps its uuid.
  pub mkdir-Extends :
      (s : DmStore kc) (now : ℕ) (junk : DirectoryInode) (path : Text) (di : DirectoryInode)
      → Extends (look fs s) (look fs (mkdir ar fs s now junk path di).1)
  unfolding mkdir
  mkdir-Extends s now junk path di k u e =
      let counted : DmStore kc = record s { uuid_counter = next_uuid s } in
      elim (Option-cases (mkdir_key ar fs counted path)) [
        | inl refused ↦ rw (refused, mkdir) e
        | inr ((puuid, key), found) ↦
            rw (found, mkdir) (mkdir_at-Extends counted path puuid key _ k u e)
      ]

  -- The conditions under which `mkdir` makes a directory: the parent is there, the name is free,
  -- and the databases can be written.
  pub record IsCreatable (s : DmStore kc) (path puuid : Text) : Type 0 where
    pub writable : IsWritable kc
    pub child : IsChildPath fs path
    pub parent : get_uuid fs s (fs.parent_path path) ≡ some puuid
    pub free : look fs s (colon_key puuid (fs.filename path)) ≡ none

  -- The store that a successful `mkdir` leaves.
  unfoldable pub mkdir_done :
      DmStore kc → ℕ → DirectoryInode → Text → DirectoryInode → Text → DmStore kc
  mkdir_done s now junk path di puuid = record s {
    uuid_counter = next_uuid s;
    uuid_store =
        (KvStore.set_value s.uuid_store (colon_key puuid (fs.filename path))
          (to_string (next_uuid s))).1;
    dm_store =
        (KvStore.set_value s.dm_store (to_string (next_uuid s))
          (ar.save (serialize (new_inode (next_uuid s) now junk path di)))).1;
    ec_store = (EntryList.insert_entry s.ec_store puuid (fs.filename path)).1;
  }

  pub mkdir_new :
      (s : DmStore kc) (now : ℕ) (junk : DirectoryInode) (path : Text) (di : DirectoryInode)
      (puuid : Text)
      → IsCreatable s path puuid
      → mkdir ar fs s now junk path di ≡ (success, mkdir_done s now junk path di puuid)
  unfolding mkdir mkdir_key mkdir_at mkdir_inode mkdir_entry mkdir_done set_value new_inode get_uuid
      EntryList.insert_entry
  mkdir_new s now junk path di puuid c =
      let n = next_uuid s in
      let key = colon_key puuid (fs.filename path) in
      let inode = ar.save (serialize (new_inode n now junk path di)) in
      ground (
        arith,
        c.child.below_root,
        c.writable.set_done s.uuid_store.db key (to_string n),
        c.writable.set_done s.dm_store.db (to_string n) inode,
      )
