-- ===== src/File/Server.antt =====
-- src/fs/FMServer.cpp: the handlers that the file metadata server registers. A response buffer that a
-- handler does not fill keeps what was in it, the argument `resp`.
use undergraduate_project.Shared.{
  ℕ, ◌%◌, ◌^◌, Text, length, ℤ, Option, none, some, ◌>>=◌, is_zero, if◌then◌else◌,
}
use undergraduate_project.External.{CacheDb, PathLib}
use undergraduate_project.Messages.{
  PureValueRequest, ValueWithPathRequest, PureValueResponse, FileStatResponse, RawResponse, strncpy,
  raw_size,
}
use undergraduate_project.File.Inode.{FileAccessInode, FileContentInode, FileInode}
use undergraduate_project.File.Store.{FmStore, Archives, init}
use undergraduate_project.File.Operations.{
  create, access, remove, csize, get_attr, readdir, open_file,
}

abbrev pub owner : ℕ
owner = 0o777

-- `S_IFREG | 0744`
abbrev pub file_mode : ℕ
file_mode = 0o100744

-- The constructor of `FMServer`: the node's id where the node is configured already.
unfoldable pub start : (kc : CacheDb) → Option ℕ → FmStore kc
start kc id = init kc (elim id [ none ↦ 233 | some i ↦ i ])

pub record InodeResponse : Type 0 where
  pub result : ℤ
  pub fi : FileInode

module _ {kc : CacheDb} (ar : Archives) (fs : PathLib) where
  unfoldable pub fm_handle_access :
      FmStore kc → FileAccessInode → ValueWithPathRequest → PureValueResponse
  fm_handle_access s junk req = record { value = access ar fs s junk req.path }

  unfoldable pub fm_handle_csize :
      FmStore kc
      → FileContentInode
      → FileContentInode
      → ValueWithPathRequest
      → PureValueResponse × FmStore kc
  fm_handle_csize s junk fci req =
      let done = csize ar fs s junk req.path (record fci { size = req.value }) in
      (record { value = done.0 }, done.1)

  -- Both `st_mtime` and `st_atime` are the modification time.
  unfoldable pub fm_handle_stat :
      FmStore kc
      → FileInode
      → FileStatResponse
      → ValueWithPathRequest
      → FileStatResponse × FmStore kc
  fm_handle_stat s junk resp req =
      let got = get_attr ar fs s junk req.path in
      let fi = got.0 in
      let filled : FileStatResponse = record {
        result = fi.error;
        file_stat = record {
          st = record resp.file_stat.st {
            st_mode = file_mode;
            st_uid = fi.fa.uid % 2 ^ 32;
            st_gid = fi.fa.gid % 2 ^ 32;
            st_ctime = fi.fa.ctime;
            st_mtime = fi.fc.mtime;
            st_atime = fi.fc.mtime;
            st_size = fi.fc.size;
          };
          sid = fi.fc.sid;
          suuid = fi.fc.suuid;
          block_size = fi.fc.block_size;
        };
      } in
      (if is_zero fi.error then filled else record resp { result = fi.error }, got.1)

  -- The handler does not set `result`, and the access inode that it passes is uninitialised.
  unfoldable pub fm_handle_open :
      FmStore kc → FileAccessInode → InodeResponse → ValueWithPathRequest → InodeResponse
  fm_handle_open s junk resp req = record resp { fi = open_file ar fs s resp.fi req.path junk }

  unfoldable pub fm_handle_create :
      FmStore kc
      → FileInode
      → FileAccessInode
      → ValueWithPathRequest
      → PureValueResponse × FmStore kc
  fm_handle_create s junk fai req =
      let given : FileAccessInode = record fai {
        mode = req.value % 2 ^ 32;
        uid = owner;
        gid = owner;
      } in
      let done = create ar fs s junk req.path given in (record { value = done.0 }, done.1)

  unfoldable pub fm_handle_remove :
      (ℕ → Text) → FmStore kc → ValueWithPathRequest → Option (PureValueResponse × FmStore kc)
  fm_handle_remove moved s req =
      remove ar fs moved s req.path >>= λ done. some (record { value = done.0 }, done.1)

  -- `len` is the length of the whole listing, also where `raw` holds less of it.
  unfoldable pub fm_handle_readdir : FmStore kc → PureValueRequest → RawResponse
  fm_handle_readdir s req =
      let result = readdir ar fs s req.value in
      record { len = length result; raw = strncpy result raw_size }
