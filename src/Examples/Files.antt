-- ===== src/Examples/Files.antt =====
-- Concrete runs of `write` and `read` of src/fs/LocofsClient.cpp.
use undergraduate_project.Shared.{
  text_eq, true, none, if◌then◌else◌, failure, ℕ, zero, suc, ◌+◌, ◌*◌, ◌≡◌, ◌⊎◌, inl, inr, ◌≤◌, ◌<◌,
  refl, bytes, pos, some, Bool, List, [], ◌∷◌, ◌++◌, replicate, length, arith,
}
use undergraduate_project.Messages.{Stat}
use undergraduate_project.File.Inode.{
  FileAccessInode, FileContentInode, serialize_access, serialize_content,
}
use undergraduate_project.File.Store.{FmStore, init as file_init}
use undergraduate_project.Client.Cluster.{Cluster, path_request}
use undergraduate_project.Client.Keys.{get_file_stat}
use undergraduate_project.Client.Calls.{stat}
use undergraduate_project.Client.Transfer.{Pages}
use undergraduate_project.Client.FileBytes.{Distinct}
use undergraduate_project.Client.Files.{write, read}
use undergraduate_project.Client.ReadBack.{page_of}
use undergraduate_project.Client.Sized.{write_then_stat}
use undergraduate_project.Client.Written.{write_then_read_again}
use undergraduate_project.Samples.{mem_db, mem_db-IsWritable, dir_archive, file_archives, posix}
use undergraduate_project.Examples.Clients.{
  cluster, any_scratch, any_content, blank_pages, blank_full, across_a_border,
}

abbrev pub written_access : FileAccessInode
written_access = record { mode = 0o644; ctime = 3; uid = 1; gid = 2; error = failure }

abbrev pub written_content : FileContentInode
written_content = record any_content { size = 100; block_size = 4096 }

-- A file server that has the file "/a/f" of directory 7.
abbrev stored : FmStore mem_db
stored = record (file_init mem_db 233) {
  file_access_store = record {
    db = λ k.
        if text_eq (bytes "7:f") k
        then some (file_archives.access.save (serialize_access written_access))
        else none;
  };
  file_content_store = record {
    db = λ k.
        if text_eq (bytes "7:f") k
        then some (file_archives.content.save (serialize_content written_content))
        else none;
  };
}

abbrev pub with_file : Cluster mem_db
with_file = record cluster { file = stored }

pub two_pages :
    Distinct
      (page_of 1000
        (get_file_stat dir_archive file_archives posix with_file any_scratch (bytes "/a/f")).0.1)
      (get_file_stat dir_archive file_archives posix with_file any_scratch
        (bytes "/a/f")).0.1.block_size
      2
unfolding get_file_stat undergraduate_project.Client.Keys.get_file_key
    undergraduate_project.File.Server.fm_handle_stat undergraduate_project.File.Operations.get_attr
    undergraduate_project.File.Store.get_inode undergraduate_project.Shared.text_eq path_request
    undergraduate_project.Messages.strncpy undergraduate_project.Shared.to_string
    undergraduate_project.Client.Transfer.hash_obj undergraduate_project.Client.Transfer.shift_left
two_pages zero zero h k e = refl
two_pages zero (suc zero) h k e = absurd (omega (arith, e))
two_pages (suc zero) zero h k e = absurd (omega (arith, e))
two_pages (suc zero) (suc zero) h k e = refl
two_pages (suc (suc a)) b h k e = absurd (omega arith)
two_pages a (suc (suc b)) h k e = absurd (omega arith)

write_then_stat_example :
    (c' : Cluster mem_db) × (pages' : Pages) × (write dir_archive file_archives posix 1000 with_file
        blank_pages any_scratch []
        (bytes "/a/f")
        (replicate 10 1)
        4090
      ≡ some (true, c', pages'))
    × (st : Stat) × ((stat dir_archive file_archives posix c' any_scratch (bytes "/a/f")).0
        ≡ some st)
    × (st.st_size ≡ 4100)
    × ((get_file_stat dir_archive file_archives posix c' any_scratch (bytes "/a/f")).0.0 ≡ true)
    × ((get_file_stat dir_archive file_archives posix c' any_scratch (bytes "/a/f")).0.1.sid
        ≡ (get_file_stat dir_archive file_archives posix with_file any_scratch
            (bytes "/a/f")).0.1.sid)
    × ((get_file_stat dir_archive file_archives posix c' any_scratch (bytes "/a/f")).0.1.suuid
        ≡ (get_file_stat dir_archive file_archives posix with_file any_scratch
            (bytes "/a/f")).0.1.suuid)
    × ((get_file_stat dir_archive file_archives posix c' any_scratch (bytes "/a/f")).0.1.block_size
        ≡ (get_file_stat dir_archive file_archives posix with_file any_scratch
            (bytes "/a/f")).0.1.block_size)
    × ((get_file_stat dir_archive file_archives posix c' any_scratch (bytes "/a/f")).0.1.st.st_size
        ≡ 4100)
unfolding get_file_stat undergraduate_project.Client.Keys.get_file_key
    undergraduate_project.File.Server.fm_handle_stat undergraduate_project.File.Operations.get_attr
    undergraduate_project.File.Store.get_inode undergraduate_project.Shared.text_eq path_request
    undergraduate_project.Messages.strncpy undergraduate_project.Shared.to_string
write_then_stat_example =
    write_then_stat dir_archive file_archives posix 1000 with_file blank_pages any_scratch
      any_scratch [] (replicate 10 1) (bytes "/a/f") (bytes "7:f") 4090 written_access
      written_content mem_db-IsWritable refl refl refl (omega arith)

write_then_read_again_example :
    (c' : Cluster mem_db) × (pages' : Pages) × (write dir_archive file_archives posix 1000 with_file
        blank_pages any_scratch []
        (bytes "/a/f")
        (replicate 10 1)
        4090
      ≡ some (true, c', pages'))
    × (read dir_archive file_archives posix 1000 c' pages' any_scratch (bytes "/a/f") 12 4088
        ≡ some (
          pos 12,
          0 ∷ 0 ∷ replicate 10 1,
          (get_file_stat dir_archive file_archives posix c' any_scratch (bytes "/a/f")).1,
        ))
unfolding get_file_stat undergraduate_project.Client.Keys.get_file_key
    undergraduate_project.File.Server.fm_handle_stat undergraduate_project.File.Operations.get_attr
    undergraduate_project.File.Store.get_inode undergraduate_project.Shared.text_eq path_request
    undergraduate_project.Messages.strncpy undergraduate_project.Shared.to_string
write_then_read_again_example =
    write_then_read_again dir_archive file_archives posix 1000 with_file blank_pages any_scratch
      any_scratch [] (replicate 10 1) (bytes "/a/f") (bytes "7:f") 4090 4088 12 2 written_access
      written_content mem_db-IsWritable refl refl refl (omega arith) (omega arith)
      (inr across_a_border) blank_full two_pages (omega arith) (omega arith) (omega arith)
