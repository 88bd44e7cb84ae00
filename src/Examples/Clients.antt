-- ===== src/Examples/Clients.antt =====
-- Tests of src/fs/LocofsClient.cpp and include/fs/lru_cache.h: a client that knows the directory "/a",
-- a cache of two entries, and a cluster of blank pages.
use undergraduate_project.Shared.{
  ℕ, ◌+◌, ◌*◌, ◌≡◌, ◌≢◌, ◌⊎◌, inl, inr, ◌++◌, zero, suc, ◌≤◌, ◌<◌, refl, Text, bytes, ℤ, pos,
  negsuc, success, failure, Option, none, some, List, [], ◌∷◌, true, replicate, length, arith,
}
use undergraduate_project.Messages.{Stat}
use undergraduate_project.Directory.Store
use undergraduate_project.File.Inode.{FileAccessInode, FileContentInode}
use undergraduate_project.File.Store.{init as file_init}
use undergraduate_project.File.Server.{file_mode, owner}
use undergraduate_project.Client.Cache.{CacheData, LruCache}
use undergraduate_project.Client.Cluster.{Scratch, Cluster}
use undergraduate_project.Client.Created.{create_then_stat}
use undergraduate_project.Client.Calls.{create, stat}
use undergraduate_project.Client.Transfer.{Pages, fresh_page, write_loop}
use undergraduate_project.Client.TransferLaws.{whole_page_goes_to_0}
use undergraduate_project.Client.FileBytes.{Distinct}
use undergraduate_project.Samples.{mem_db, mem_db-IsWritable, dir_archive, file_archives, posix}

abbrev entry_7 : CacheData ℕ
entry_7 = record { begin_time = 1; update_time = 1; expire_time = negsuc 0; count = 0; content = 7 }

abbrev small_cache : LruCache ℕ
small_cache = record {
  max_size = 2;
  avg_expire_time = pos 0;
  cache_map = (bytes "/a", entry_7) ∷ [];
}

abbrev full_cache : LruCache ℕ
full_cache = record small_cache { max_size = 1 }

abbrev any_stat : Stat
any_stat = record {
  st_mode = 0;
  st_uid = 0;
  st_gid = 0;
  st_ctime = 0;
  st_mtime = 0;
  st_atime = 0;
  st_size = 0;
}

abbrev any_access : FileAccessInode
any_access = record { mode = 9; ctime = 9; uid = 9; gid = 9; error = failure }

abbrev pub any_content : FileContentInode
any_content = record {
  mtime = 9;
  atime = 9;
  size = 9;
  block_size = 9;
  origin_name = [];
  error = failure;
  suuid = 9;
  sid = 9;
}

abbrev pub any_scratch : Scratch
any_scratch = record {
  now = 5;
  value = 0o644;
  di = record {
    ctime = 9;
    mode = 9;
    uid = 9;
    gid = 9;
    status = 9;
    old_name = [];
    error = failure;
    uuid = 9;
  };
  fi = record { fc = any_content; fa = any_access; error = failure };
  fai = any_access;
  fci = any_content;
  dir_resp = record { result = success; dir_stat = record { uuid = 0; st = any_stat } };
  file_resp = record {
    result = success;
    file_stat = record { st = any_stat; suuid = 0; sid = 0; block_size = 0 };
  };
  raw_resp = record { len = 0; raw = [] };
  after_raw = [];
  moved = λ n. [];
}

abbrev pub cluster : Cluster mem_db
cluster = record {
  ucache = small_cache;
  directory = Store.init mem_db;
  file = file_init mem_db 233;
  other_files = [];
}

create_then_stat_example :
    (c' : Cluster mem_db) × (create dir_archive file_archives posix cluster any_scratch
        (bytes "/a/f")
      ≡ some (true, c'))
    × (st : Stat) × ((stat dir_archive file_archives posix c' any_scratch (bytes "/a/f")).0
        ≡ some st)
    × (st.st_size ≡ 0)
    × (st.st_mode ≡ file_mode)
    × (st.st_uid ≡ owner)
    × (st.st_gid ≡ owner)
unfolding undergraduate_project.Client.Keys.check_path
    undergraduate_project.Client.Keys.get_file_key undergraduate_project.Shared.text_eq
    undergraduate_project.Shared.to_string
create_then_stat_example =
    create_then_stat dir_archive file_archives posix cluster any_scratch any_scratch (bytes "/a/f")
      (bytes "7:f") mem_db-IsWritable refl refl

abbrev pub blank_pages : Pages
blank_pages n = replicate 4096 0

abbrev scattered : ℕ → ℕ
scattered b = b * 5 + 1

pub blank_full : (j : ℕ) → length (blank_pages j) ≡ 4096
blank_full j = refl

scattered-Distinct : Distinct scattered 4096 8
scattered-Distinct a b below below' e = omega arith

pub across_a_border : (b : ℕ) → (4096 * b < 4090) ⊎ (4090 + 10 < 4096 * b + 4096)
across_a_border zero = inl (omega arith)
across_a_border (suc b) = inr (omega arith)

whole_page_goes_to_0_example :
    (pages' : Pages) × (write_loop scattered 4096 4096 blank_pages
        (fresh_page [])
        4096
        (replicate 4096 1)
      ≡ some pages')
    × (pages' 6 ≡ blank_pages 6)
whole_page_goes_to_0_example =
    whole_page_goes_to_0 scattered 4096 blank_pages [] (replicate 4096 1) 4096 6 refl refl refl
      (omega arith)
