-- ===== src/Examples/Metadata.antt =====
-- Tests of src/fs/DMStore.cpp, src/fs/FMStore.cpp and src/fs/EntryList.cpp: the directory "/a" on a
-- new directory server, and the file "0:f" on a new file server.
use undergraduate_project.Shared.{
  ℕ, ◌≡◌, ◌≢◌, refl, ℤ, Text, bytes, text_eq, if◌then◌else◌, success, failure, Option, none, some,
  List, [], ◌∷◌, inr, to_string, colon_key, arith, ◌>>=◌,
}
use undergraduate_project.Storage.EntryList.{EntryList, insert_entry, remove_entry}
use undergraduate_project.Storage.Entries.{insert_then_remove}
use undergraduate_project.Messages.{DirStatResponse}
use undergraduate_project.Directory.Inode.{DirectoryInode, serialize}
use undergraduate_project.Directory.Store.{
  DmStore, root_path, look, get_uuid, get_2_uuid, get_value,
}
use undergraduate_project.Directory.Store
use undergraduate_project.Directory.Operations
use undergraduate_project.Directory.Operations.{next_uuid}
use undergraduate_project.Directory.Server.{dm_handle_stat, dm_run, DmCall, mkdir_request}
use undergraduate_project.Directory.Server
use undergraduate_project.Directory.Resolve.{IsChildPath, get_2_uuid-get_uuid}
use undergraduate_project.Directory.Create.{IsCreatable}
use undergraduate_project.Directory.Made.{mkdir_creates, mkdir_refuses}
use undergraduate_project.Directory.Root.{root_never_found}
use undergraduate_project.Directory.Changes.{rmdir_removes, rename_stays_under_parent}
use undergraduate_project.Samples.{mem_db, mem_db-IsWritable, dir_archive, posix}

abbrev dir_junk : DirectoryInode
dir_junk = record {
  ctime = 9;
  mode = 9;
  uid = 9;
  gid = 9;
  status = 9;
  old_name = [];
  error = failure;
  uuid = 9;
}

abbrev wanted : DirectoryInode
wanted = record dir_junk { mode = 0o755; uid = 1; gid = 2 }

abbrev fresh : DmStore mem_db
fresh = Store.init mem_db

abbrev path_a : Text
path_a = bytes "/a"

path_a-IsChildPath : IsChildPath posix path_a
unfolding text_eq Store.components
path_a-IsChildPath = record { below_root = refl; split = refl }

fresh-IsCreatable : IsCreatable dir_archive posix fresh path_a (bytes "0")
unfolding get_uuid text_eq
fresh-IsCreatable = record {
  writable = mem_db-IsWritable;
  child = path_a-IsChildPath;
  parent = refl;
  free = refl;
}

mkdir_creates_example :
    let made = Operations.mkdir dir_archive posix fresh 5 dir_junk path_a wanted in
    let shown = (Operations.get_attr dir_archive posix made.1 6 dir_junk path_a).0 in
    (made.0 ≡ success)
    × (get_uuid posix made.1 path_a ≡ some (to_string (next_uuid fresh)))
    × (shown.error ≡ success)
    × (shown.mode ≡ 0o755)
    × (shown.uid ≡ 1)
    × (shown.gid ≡ 2)
    × (shown.uuid ≡ next_uuid fresh)
mkdir_creates_example =
    mkdir_creates dir_archive posix fresh 5 6 dir_junk dir_junk path_a wanted (bytes "0")
      fresh-IsCreatable

mkdir_refuses_example :
    Operations.mkdir dir_archive posix fresh 5 dir_junk (bytes "/b/c") wanted
    ≡ (failure, record fresh { uuid_counter = next_uuid fresh })
unfolding text_eq Store.components get_uuid Store.walk
mkdir_refuses_example =
    mkdir_refuses dir_archive posix fresh 5 dir_junk (bytes "/b/c") wanted
      (record { below_root = refl; split = refl }) (inr refl)

-- A store in which "/a" has the uuid 1.
abbrev with_a : DmStore mem_db
with_a = record fresh {
  uuid_store = record { db = λ k. if text_eq (bytes "0:a") k then some (bytes "1") else none };
  dm_store = record {
    db = λ k. if text_eq (bytes "1") k then some (dir_archive.save (serialize wanted)) else none;
  };
  ec_store = record { entry = λ k. if text_eq (bytes "0") k then some (bytes "a" ∷ []) else none };
}

abbrev no_text : ℕ → Text
no_text n = []

abbrev store_of : Option (ℤ × DmStore mem_db) → DmStore mem_db
store_of none = fresh
store_of (some done) = done.1

abbrev a_removed : DmStore mem_db
a_removed = store_of (Operations.rmdir dir_archive posix no_text with_a path_a)

rmdir_removes_example :
    (get_uuid posix a_removed path_a ≡ none)
    × ((u : Text)
        → get_uuid posix a_removed root_path ≡ some u
        → get_uuid posix with_a root_path ≡ some u)
unfolding Operations.rmdir text_eq get_2_uuid Store.walk_2 Store.components Operations.rmdir_at
    remove_entry
rmdir_removes_example =
    rmdir_removes dir_archive posix no_text with_a a_removed path_a root_path path_a-IsChildPath
      refl

abbrev a_renamed : DmStore mem_db
a_renamed =
    store_of (Operations.rename dir_archive posix no_text with_a 5 dir_junk path_a (bytes "/x/b"))

rename_stays_under_parent_example : look posix a_renamed (bytes "0:b") ≡ (
    if text_eq (colon_key (bytes "0") (bytes "b")) (bytes "0:b")
    then some (bytes "1")
    else if text_eq (colon_key (bytes "0") (bytes "a")) (bytes "0:b")
    then none
    else look posix with_a (bytes "0:b"))
unfolding get_2_uuid text_eq Store.walk_2 Store.components Operations.rename Operations.rename_at
    Operations.rename_entry remove_entry Operations.mark_renamed Store.set_value insert_entry
rename_stays_under_parent_example =
    rename_stays_under_parent dir_archive posix no_text with_a a_renamed 5 dir_junk path_a
      (bytes "/x/b") (bytes "0") (bytes "1") refl refl (bytes "0:b")

abbrev no_stat : DirStatResponse
no_stat = record {
  result = success;
  dir_stat = record {
    uuid = 0;
    st = record {
      st_mode = 0;
      st_uid = 0;
      st_gid = 0;
      st_ctime = 0;
      st_mtime = 0;
      st_atime = 0;
      st_size = 0;
    };
  };
}

abbrev one_call : List DmCall
one_call =
    (record {
      now = 4;
      junk = dir_junk;
      moved = no_text;
      resp = no_stat;
      request = mkdir_request (record { value = 0o755; path = path_a });
    })
    ∷ []

abbrev started : DmStore mem_db
started = Server.start dir_archive posix 3 dir_junk

abbrev run_of : Option (DmStore mem_db) → DmStore mem_db
run_of none = fresh
run_of (some s) = s

abbrev served : DmStore mem_db
served = run_of (dm_run dir_archive posix started one_call)

root_never_found_example :
    (dm_handle_stat dir_archive posix served 6 dir_junk no_stat
      (record { value = 0; path = root_path })).0.result
    ≡ failure
unfolding dm_run Server.dm_step
root_never_found_example =
    root_never_found mem_db dir_archive posix 3 6 dir_junk dir_junk no_stat 0 one_call served
      (omega arith) refl

get_2_uuid-get_uuid_example :
    (get_2_uuid posix with_a path_a >>= λ r. some r.1) ≡ get_uuid posix with_a path_a
get_2_uuid-get_uuid_example = get_2_uuid-get_uuid posix with_a path_a

abbrev one_listed : EntryList
one_listed = record { entry = λ k. if text_eq (bytes "0") k then some (bytes "a" ∷ []) else none }

insert_then_remove_example :
    (s' : EntryList) × (remove_entry no_text
        (insert_entry one_listed (bytes "0") (bytes "b")).1
        (bytes "0")
        (bytes "b")
      ≡ some (success, s'))
    × (s'.entry (bytes "0") ≡ some (bytes "a" ∷ []))
    × ((j : Text) → bytes "0" ≢ j → s'.entry j ≡ one_listed.entry j)
unfolding text_eq
insert_then_remove_example =
    insert_then_remove no_text one_listed (bytes "0") (bytes "b") (bytes "a" ∷ []) refl refl
