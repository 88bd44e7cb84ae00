-- ===== src/File/Store.antt =====
-- The state of `FMStore` and its access to the two inodes of a key.
use undergraduate_project.Shared.{
  ℕ, Text, ℤ, success, failure, is_negative, none, some, if◌then◌else◌,
}
use undergraduate_project.External.{CacheDb, Archive}
use undergraduate_project.Storage.KvStore
use undergraduate_project.Storage.KvStore.{KvStore}
use undergraduate_project.Storage.EntryList
use undergraduate_project.Storage.EntryList.{EntryList}
use undergraduate_project.File.Inode.{
  FileAccessInode, FileContentInode, FileInode, AccessFields, ContentFields, serialize_access,
  deserialize_access, serialize_content, deserialize_content,
}

pub record FmStore (kc : CacheDb) : Type 0 where
  pub file_access_store : KvStore kc
  pub file_content_store : KvStore kc
  pub ec_store : EntryList
  pub suuid_counter : ℕ
  pub sid_num : ℕ

abbrev pub init : (kc : CacheDb) → ℕ → FmStore kc
init kc sid = record {
  file_access_store = KvStore.init_db;
  file_content_store = KvStore.init_db;
  ec_store = EntryList.empty;
  suuid_counter = 0;
  sid_num = sid;
}

-- The archives of the two inodes.
pub record Archives : Type 0 where
  pub access : Archive AccessFields
  pub content : Archive ContentFields

module _ {kc : CacheDb} (ar : Archives) where
  unfoldable pub get_access : FmStore kc → Text → FileAccessInode → ℤ × FileAccessInode
  get_access s key fa = elim (KvStore.get_value s.file_access_store key) [
    | none ↦ (failure, fa)
    | some value ↦ (success, deserialize_access (ar.access.load value) fa)
  ]

  unfoldable pub set_access : FmStore kc → Text → FileAccessInode → ℤ × FmStore kc
  set_access s key fa =
      let done = KvStore.set_value s.file_access_store key (ar.access.save (serialize_access fa)) in
      (if done.0 then success else failure, record s { file_access_store = done.1 })

  unfoldable pub get_content : FmStore kc → Text → FileContentInode → ℤ × FileContentInode
  get_content s key fc = elim (KvStore.get_value s.file_content_store key) [
    | none ↦ (failure, fc)
    | some value ↦ (success, deserialize_content (ar.content.load value) fc)
  ]

  unfoldable pub set_content : FmStore kc → Text → FileContentInode → ℤ × FmStore kc
  set_content s key fc =
      let done =
        KvStore.set_value s.file_content_store key (ar.content.save (serialize_content fc)) in
      (if done.0 then success else failure, record s { file_content_store = done.1 })

  -- The access inode first; where it is missing the content inode is not read.
  unfoldable pub get_inode : FmStore kc → Text → FileInode → ℤ × FileInode
  unfolding get_access get_content
  get_inode s key fi =
      let access = get_access s key fi.fa in
      let content = get_content s key fi.fc in
      if is_negative access.0
      then (failure, record fi { fa = access.1 })
      else if is_negative content.0
      then (failure, record fi { fa = access.1; fc = content.1 })
      else (success, record fi { fa = access.1; fc = content.1 })

  unfoldable pub set_inode : FmStore kc → Text → FileInode → ℤ × FmStore kc
  unfolding set_access set_content
  set_inode s key fi =
      let access = set_access s key fi.fa in
      let content = set_content access.1 key fi.fc in
      if is_negative access.0
      then (failure, access.1)
      else if is_negative content.0
      then (failure, content.1)
      else (success, content.1)
