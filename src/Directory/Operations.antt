-- ===== src/Directory/Operations.antt =====
-- The operations of `DMStore`. `now` is the value of `time(NULL)`.
use undergraduate_project.Shared.{
  ℕ, ◌+◌, ◌%◌, ◌^◌, Text, text_eq, colon_key, to_string, ℤ, pos, success, failure, is_negative, not,
  Option, none, some, [], ◌>>=◌, if◌then◌else◌,
}
use undergraduate_project.External.{CacheDb, Archive, PathLib}
use undergraduate_project.Storage.KvStore
use undergraduate_project.Storage.EntryList
use undergraduate_project.Directory.Inode.{DirectoryInode, DirFields, on_use, renamed}
use undergraduate_project.Directory.Store.{
  DmStore, get_value, set_value, get_uuid, get_2_uuid, look, root_path,
}

-- `++uuid_counter` on a `uint64_t`.
unfoldable pub next_uuid : {kc : CacheDb} → DmStore kc → ℕ
next_uuid s = (s.uuid_counter + 1) % 2 ^ 64

unfoldable pub new_inode : ℕ → ℕ → DirectoryInode → Text → DirectoryInode → DirectoryInode
new_inode this_uuid now junk path di = record {
  mode = di.mode;
  gid = di.gid;
  uid = di.uid;
  ctime = now;
  status = on_use;
  old_name = path;
  error = junk.error;
  uuid = this_uuid;
}

module _ {kc : CacheDb} (ar : Archive DirFields) (fs : PathLib) where
  -- The uuid of the parent and the key of the new directory.
  unfoldable pub mkdir_key : DmStore kc → Text → Option (Text × Text)
  mkdir_key s path =
      if text_eq path root_path
      then some ([], root_path)
      else (get_uuid fs s (fs.parent_path path) >>= λ puuid.
          some (puuid, colon_key puuid (fs.filename path)))

  -- update entry
  unfoldable pub mkdir_entry : DmStore kc → Text → Text → ℤ × DmStore kc
  mkdir_entry s path puuid =
      if text_eq path root_path
      then (success, s)
      else (let done = EntryList.insert_entry s.ec_store puuid (fs.filename path) in
          let s' : DmStore kc = record s { ec_store = done.1 } in
          if is_negative done.0 then (failure, s') else (success, s'))

  -- update uuid->inode, then the entry
  unfoldable pub mkdir_inode : DmStore kc → Text → Text → DirectoryInode → ℤ × DmStore kc
  mkdir_inode s path puuid dii =
      let done = set_value ar s (to_string dii.uuid) dii in
      if is_negative done.0 then (failure, done.1) else mkdir_entry done.1 path puuid

  -- update path->uuid, then the rest
  unfoldable pub mkdir_at : DmStore kc → Text → Text → Text → DirectoryInode → ℤ × DmStore kc
  mkdir_at s path puuid key_uuid dii = elim (look fs s key_uuid) [
    | some tmp2 ↦ (failure, s)
    | none ↦
        let done = KvStore.set_value s.uuid_store key_uuid (to_string dii.uuid) in
        let s' : DmStore kc = record s { uuid_store = done.1 } in
        if done.0 then mkdir_inode s' path puuid dii else (failure, s')
  ]

  unfoldable pub mkdir : DmStore kc → ℕ → DirectoryInode → Text → DirectoryInode → ℤ × DmStore kc
  mkdir s now junk path di =
      let counted : DmStore kc = record s { uuid_counter = next_uuid s } in
      elim (mkdir_key counted path) [
        | none ↦ (failure, counted)
        | some (puuid, key_uuid) ↦
            mkdir_at counted path puuid key_uuid (new_inode (next_uuid s) now junk path di)
      ]

  unfoldable pub access : DmStore kc → DirectoryInode → Text → ℤ
  access s junk path = elim (get_uuid fs s path) [
    | none ↦ failure
    | some uuid ↦ if is_negative (get_value ar s uuid junk).0 then failure else success
  ]

  -- The results of `getValue` and `setValue` are not looked at.
  unfoldable pub chown : DmStore kc → ℕ → DirectoryInode → Text → DirectoryInode → ℤ × DmStore kc
  chown s now junk path di = elim (get_uuid fs s path) [
    | none ↦ (failure, s)
    | some uuid ↦
        let dii = (get_value ar s uuid junk).1 in
        let dii' : DirectoryInode = record dii { uid = di.uid; gid = di.gid; ctime = now } in
        (success, (set_value ar s uuid dii').1)
  ]

  -- `dii` is prepared, and `di`, the argument, is what is stored.
  unfoldable pub chmod : DmStore kc → ℕ → DirectoryInode → Text → DirectoryInode → ℤ × DmStore kc
  chmod s now junk path di = elim (get_uuid fs s path) [
    | none ↦ (failure, s)
    | some uuid ↦ (success, (set_value ar s uuid di).1)
  ]

  -- The entry of a removed or renamed directory; `none` is undefined behaviour.
  abbrev pub drop_entry : (ℕ → Text) → DmStore kc → Text → Text → Option (ℤ × DmStore kc)
  drop_entry moved s puuid name = EntryList.remove_entry moved s.ec_store puuid name >>= λ done.
      some (if is_negative done.0 then failure else success, record s { ec_store = done.1 })

  unfoldable pub rmdir_at : (ℕ → Text) → DmStore kc → Text → Text → Text → Option (ℤ × DmStore kc)
  rmdir_at moved s puuid uuid name =
      let inode = KvStore.remove s.dm_store uuid in
      let s' : DmStore kc = record s { dm_store = inode.1 } in
      let path = KvStore.remove s'.uuid_store (colon_key puuid name) in
      let s'' : DmStore kc = record s' { uuid_store = path.1 } in
      if not inode.0
      then some (failure, s')
      else if not path.0
      then some (failure, s'')
      else drop_entry moved s'' puuid name

  unfoldable pub rmdir : (ℕ → Text) → DmStore kc → Text → Option (ℤ × DmStore kc)
  rmdir moved s path =
      if text_eq path root_path then some (pos 1, s) else elim (get_2_uuid fs s path) [
        | none ↦ some (failure, s)
        | some (puuid, uuid) ↦ rmdir_at moved s puuid uuid (fs.filename path)
      ]

  -- update dir's stat
  unfoldable pub mark_renamed : DmStore kc → ℕ → DirectoryInode → Text → DmStore kc
  mark_renamed s now junk uuid =
      let dii = (get_value ar s uuid junk).1 in
      (set_value ar s uuid (record dii { status = renamed; ctime = now })).1

  -- update entry
  unfoldable pub rename_entry :
      (ℕ → Text) → DmStore kc → Text → Text → Text → Option (ℤ × DmStore kc)
  rename_entry moved s puuid old_name new_name = drop_entry moved s puuid old_name >>= λ done.
      let added = EntryList.insert_entry done.1.ec_store puuid new_name in
      some (
        if is_negative done.0 then done else (
          if is_negative added.0 then failure else success,
          record done.1 { ec_store = added.1 },
        ))

  unfoldable pub rename_at :
      (ℕ → Text)
      → DmStore kc
      → ℕ
      → DirectoryInode
      → Text
      → Text
      → Text
      → Text
      → Option (ℤ × DmStore kc)
  rename_at moved s now junk puuid uuid old_name new_name =
      let removed = KvStore.remove s.uuid_store (colon_key puuid old_name) in
      let s' : DmStore kc = record s { uuid_store = removed.1 } in
      let added = KvStore.set_value s'.uuid_store (colon_key puuid new_name) uuid in
      let s'' : DmStore kc = record s' { uuid_store = added.1 } in
      if not removed.0
      then some (failure, s')
      else if not added.0
      then some (failure, s'')
      else rename_entry moved (mark_renamed s'' now junk uuid) puuid old_name new_name

  -- The new path gives only its last name: the directory stays under its old parent.
  unfoldable pub rename :
      (ℕ → Text) → DmStore kc → ℕ → DirectoryInode → Text → Text → Option (ℤ × DmStore kc)
  rename moved s now junk old_path new_path = elim (get_2_uuid fs s old_path) [
    | none ↦ some (failure, s)
    | some (puuid, uuid) ↦
        rename_at moved s now junk puuid uuid (fs.filename old_path) (fs.filename new_path)
  ]

  -- The second part of `getAttr`: the inode is read, stamped and written back.
  unfoldable pub get_attr_at : DmStore kc → ℕ → DirectoryInode → Text → DirectoryInode × DmStore kc
  get_attr_at s now return uuid =
      let read = get_value ar s uuid return in
      let stamped : DirectoryInode = record read.1 { ctime = now } in
      if is_negative read.0
      then (record read.1 { error = failure }, s)
      else (record stamped { error = success }, (set_value ar s uuid stamped).1)

  -- A path that is not resolved leaves the uuid empty, and the inode is read all the same.
  unfoldable pub get_attr : DmStore kc → ℕ → DirectoryInode → Text → DirectoryInode × DmStore kc
  unfolding get_attr_at
  get_attr s now return path = elim (get_uuid fs s path) [
    | none ↦ get_attr_at s now (record return { error = failure }) []
    | some uuid ↦ get_attr_at s now return uuid
  ]

  unfoldable pub readdir : DmStore kc → Text → Text
  readdir s path =
      let uuid : Text = elim (get_uuid fs s path) [ none ↦ [] | some u ↦ u ] in
      EntryList.readdir fs s.ec_store uuid

  unfoldable pub opendir : DmStore kc → DirectoryInode → Text → ℤ
  opendir s junk path = elim (get_uuid fs s path) [
    | none ↦ failure
    | some uuid ↦ (get_value ar s uuid junk).0
  ]
