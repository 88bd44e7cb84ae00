-- ===== src/File/Operations.antt =====
-- The operations of `FMStore`. Locals that the source leaves uninitialised are arguments `junk`.
use undergraduate_project.Shared.{
  ℕ, ◌+◌, ◌%◌, ◌^◌, Text, to_string, ℤ, success, failure, is_negative, not, Option, none, some,
  List, [], ◌∷◌, ◌>>=◌, if◌then◌else◌,
}
use undergraduate_project.External.{CacheDb, PathLib}
use undergraduate_project.Storage.KvStore
use undergraduate_project.Storage.EntryList
use undergraduate_project.File.Inode.{FileAccessInode, FileContentInode, FileInode}
use undergraduate_project.File.Store.{
  FmStore, Archives, get_access, set_access, get_content, set_content, get_inode, set_inode,
}

abbrev pub block_size_default : ℕ
block_size_default = 4096

-- The inodes that `create` stores; the times of the file are never set.
unfoldable pub new_access : FileAccessInode → FileAccessInode → FileAccessInode
new_access junk fa = record junk { mode = fa.mode; gid = fa.gid; uid = fa.uid }

unfoldable pub new_content :
    {kc : CacheDb} → FmStore kc → FileContentInode → Text → FileContentInode
new_content s junk key = record junk {
  origin_name = key;
  block_size = block_size_default;
  size = 0;
  suuid = s.suuid_counter;
  sid = s.sid_num;
}

-- The parts of a key; an empty key is not split.
unfoldable pub key_parts : PathLib → Text → List Text
key_parts fs [] = []
key_parts fs (c ∷ rest) = fs.split_colon (c ∷ rest)

module _ {kc : CacheDb} (ar : Archives) (fs : PathLib) where
  -- insert entry: a key that has not two parts is a bad key, and gets none
  unfoldable pub create_entry : FmStore kc → Text → FmStore kc
  unfolding key_parts
  create_entry s key = elim (key_parts fs key) [
    | uuid ∷ name ∷ [] ↦ record s { ec_store = (EntryList.insert_entry s.ec_store uuid name).1 }
    | _ ↦ s
  ]

  unfoldable pub create : FmStore kc → FileInode → Text → FileAccessInode → ℤ × FmStore kc
  create s junk key fa =
      let counted : FmStore kc = record s { suuid_counter = (s.suuid_counter + 1) % 2 ^ 64 } in
      let access = set_access ar counted key (new_access junk.fa fa) in
      let content = set_content ar access.1 key (new_content s junk.fc key) in
      if is_negative access.0
      then (failure, access.1)
      else if is_negative content.0
      then (failure, content.1)
      else (success, create_entry content.1 key)

  unfoldable pub access : FmStore kc → FileAccessInode → Text → ℤ
  access s junk key = (get_access ar s key junk).0

  -- The results of `getValue` and `setValue` are not looked at.
  unfoldable pub chown : FmStore kc → FileAccessInode → Text → FileAccessInode → ℤ × FmStore kc
  chown s junk key fa =
      let faa = (get_access ar s key junk).1 in
      (success, (set_access ar s key (record faa { uid = fa.uid; gid = fa.gid })).1)

  unfoldable pub chmod : FmStore kc → FileAccessInode → Text → FileAccessInode → ℤ × FmStore kc
  chmod s junk key fa =
      let faa = (get_access ar s key junk).1 in
      (success, (set_access ar s key (record faa { mode = fa.mode })).1)

  -- The entry of the removed file. A key with fewer than two parts is read out of bounds, which is
  -- undefined behaviour: `none`.
  unfoldable pub remove_key_entry : (ℕ → Text) → FmStore kc → Text → Option (ℤ × FmStore kc)
  remove_key_entry moved s key = elim (fs.split_colon key) [
    | uuid ∷ name ∷ rest ↦
        (EntryList.remove_entry moved s.ec_store uuid name >>= λ done.
        some (success, record s { ec_store = done.1 }))
    | _ ↦ none
  ]

  unfoldable pub remove : (ℕ → Text) → FmStore kc → Text → Option (ℤ × FmStore kc)
  remove moved s key =
      let access = KvStore.remove s.file_access_store key in
      let content = KvStore.remove s.file_content_store key in
      let s' : FmStore kc = record s { file_access_store = access.1 } in
      let s'' : FmStore kc = record s' { file_content_store = content.1 } in
      if not access.0
      then some (failure, s')
      else if not content.0
      then some (failure, s'')
      else remove_key_entry moved s'' key

  unfoldable pub csize : FmStore kc → FileContentInode → Text → FileContentInode → ℤ × FmStore kc
  csize s junk key fc =
      let fcc = get_content ar s key junk in
      let stored = set_content ar s key (record fcc.1 { size = fc.size }) in
      if is_negative fcc.0
      then (failure, s)
      else (if is_negative stored.0 then failure else success, stored.1)

  unfoldable pub get_attr : FmStore kc → FileInode → Text → FileInode × FmStore kc
  get_attr s return key =
      let got = get_inode ar s key return in
      if is_negative got.0
      then (record got.1 { error = failure }, s)
      else (record got.1 { error = success }, (set_inode ar s key got.1).1)

  -- `_return.error` here is the error of the content inode.
  unfoldable pub get_content_of :
      FmStore kc → FileContentInode → Text → FileContentInode × FmStore kc
  get_content_of s return key =
      let got = get_content ar s key return in
      if is_negative got.0
      then (record got.1 { error = failure }, s)
      else (record got.1 { error = success }, (set_content ar s key got.1).1)

  unfoldable pub get_access_of : FmStore kc → FileAccessInode → Text → FileAccessInode
  get_access_of s return key =
      let got = get_access ar s key return in
      if is_negative got.0
      then record got.1 { error = failure }
      else record got.1 { error = success }

  unfoldable pub readdir : FmStore kc → ℕ → Text
  readdir s uuid = EntryList.readdir fs s.ec_store (to_string uuid)

  -- The content inode is read and stored again: no time changes.
  unfoldable pub utimens : FmStore kc → FileContentInode → Text → FileContentInode → ℤ × FmStore kc
  utimens s junk key fc =
      let fcc = get_content ar s key junk in
      let stored = set_content ar s key fcc.1 in
      if is_negative fcc.0
      then (failure, s)
      else (if is_negative stored.0 then failure else success, stored.1)

  unfoldable pub open_file : FmStore kc → FileInode → Text → FileAccessInode → FileInode
  open_file s return key fa =
      let got = get_inode ar s key return in
      if is_negative got.0
      then record got.1 { error = failure }
      else record got.1 { fa = record got.1.fa { mode = fa.mode }; error = success }

  -- To do in the source.
  unfoldable pub rename : FmStore kc → Text → Text → ℤ × FmStore kc
  rename s old_path new_path = (success, s)
