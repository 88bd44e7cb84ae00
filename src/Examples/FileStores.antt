-- ===== src/Examples/FileStores.antt =====
-- Tests of src/fs/FMStore.cpp: the file "0:f" on a new file server, and another one beside it.
use undergraduate_project.Shared.{
  ℕ, ◌≡◌, ◌≢◌, refl, Text, bytes, text_eq, ℤ, if◌then◌else◌, failure, Option, none, some, [], ◌∷◌,
  arith,
}
use undergraduate_project.Storage.EntryList
use undergraduate_project.File.Inode.{
  FileAccessInode, FileContentInode, FileInode, serialize_access, serialize_content,
}
use undergraduate_project.File.Store
use undergraduate_project.File.Store.{FmStore}
use undergraduate_project.File.Operations
use undergraduate_project.File.Operations.{block_size_default}
use undergraduate_project.File.Removal.{remove_removes}
use undergraduate_project.Samples.{mem_db, file_archives, posix}

abbrev any_access : FileAccessInode
any_access = record { mode = 9; ctime = 9; uid = 9; gid = 9; error = failure }

abbrev any_content : FileContentInode
any_content = record {
  mtime = 9;
  atime = 9;
  size = 9;
  block_size = 9;
  origin_name = [];
  error = failure;
  suuid = 9;
  sid = 9;
}

abbrev any_inode : FileInode
any_inode = record { fc = any_content; fa = any_access; error = failure }

abbrev asked : FileAccessInode
asked = record any_access { mode = 0o644; uid = 1; gid = 2 }

abbrev fresh : FmStore mem_db
fresh = Store.init mem_db 233

abbrev key_f : Text
key_f = bytes "0:f"

other_key : key_f ≢ bytes "0:g"
other_key e = ground arith

-- A server that has the file.
abbrev with_f : FmStore mem_db
with_f = record fresh {
  file_access_store = record {
    db = λ k.
        if text_eq key_f k then some (file_archives.access.save (serialize_access asked)) else none;
  };
  file_content_store = record {
    db = λ k.
        if text_eq key_f k
        then some (file_archives.content.save (serialize_content any_content))
        else none;
  };
  ec_store = record { entry = λ k. if text_eq (bytes "0") k then some (bytes "f" ∷ []) else none };
}

abbrev no_text : ℕ → Text
no_text n = []

abbrev store_of : Option (ℤ × FmStore mem_db) → FmStore mem_db
store_of none = fresh
store_of (some done) = done.1

abbrev without_f : FmStore mem_db
without_f = store_of (Operations.remove file_archives posix no_text with_f key_f)

remove_removes_example :
    ((junk : FileAccessInode)
      → Operations.access file_archives posix without_f junk key_f ≡ failure)
    × ((out : FileInode)
        → (Operations.get_attr file_archives posix without_f out key_f).0.error ≡ failure)
    × ((out : FileInode) (j : Text)
        → key_f ≢ j
        → (Operations.get_attr file_archives posix without_f out j).0
          ≡ (Operations.get_attr file_archives posix with_f out j).0)
unfolding Operations.remove text_eq Operations.remove_key_entry EntryList.remove_entry
remove_removes_example = remove_removes file_archives posix no_text with_f without_f key_f refl
