-- ===== src/Directory/Server.antt =====
-- src/fs/DMServer.cpp: the handlers that the directory metadata server registers, and its start.
-- A response buffer that a handler does not fill keeps what was in it, the argument `resp`.
use undergraduate_project.Shared.{
  ℕ, ◌%◌, ◌^◌, Text, Option, some, List, [], ◌∷◌, ◌>>=◌, is_zero, if◌then◌else◌,
}
use undergraduate_project.External.{CacheDb, Archive, PathLib}
use undergraduate_project.Messages.{
  ValueWithPathRequest, PureValueResponse, DirStatResponse, RawResponse, strncpy, raw_size,
}
use undergraduate_project.Directory.Inode.{DirectoryInode, DirFields}
use undergraduate_project.Directory.Store.{DmStore, init, root_path}
use undergraduate_project.Directory.Operations.{mkdir, access, rmdir, get_attr, readdir}

-- The mode, user and group that the server starts and creates directories with.
abbrev pub root_mode : ℕ
root_mode = 0o755

abbrev pub owner : ℕ
owner = 0o777

-- The code writes `di.uid = di.gid = 0777` on an inode that is otherwise uninitialised.
abbrev pub owned_inode : DirectoryInode → ℕ → DirectoryInode
owned_inode junk mode = record junk { mode = mode; uid = owner; gid = owner }

-- The requests on directories that the server registers a handler for; its test request does not touch
-- the store.
pub data DmRequest : Type 0 where
  stat_request access_request mkdir_request rmdir_request readdir_request :
      ValueWithPathRequest → DmRequest

pub record DmCall : Type 0 where
  pub now : ℕ
  pub junk : DirectoryInode
  pub moved : ℕ → Text
  pub resp : DirStatResponse
  pub request : DmRequest

module _ {kc : CacheDb} (ar : Archive DirFields) (fs : PathLib) where
  -- The constructor of `DMServer`.
  unfoldable pub start : ℕ → DirectoryInode → DmStore kc
  start now junk =
      let dii : DirectoryInode = record (owned_inode junk root_mode) {
        ctime = now;
        old_name = root_path;
      } in
      (mkdir ar fs (init kc) now junk root_path dii).1

  unfoldable pub dm_handle_access :
      DmStore kc → DirectoryInode → ValueWithPathRequest → PureValueResponse
  dm_handle_access s junk req = record { value = access ar fs s junk req.path }

  unfoldable pub dm_handle_stat :
      DmStore kc
      → ℕ
      → DirectoryInode
      → DirStatResponse
      → ValueWithPathRequest
      → DirStatResponse × DmStore kc
  dm_handle_stat s now junk resp req =
      let got = get_attr ar fs s now junk req.path in
      let di = got.0 in
      let filled : DirStatResponse = record {
        result = di.error;
        dir_stat = record {
          uuid = di.uuid;
          st = record resp.dir_stat.st {
            st_mtime = 0;
            st_atime = 0;
            st_uid = di.uid % 2 ^ 32;
            st_gid = di.gid % 2 ^ 32;
            st_mode = di.mode % 2 ^ 32;
            st_ctime = di.ctime;
          };
        };
      } in
      (if is_zero di.error then filled else record resp { result = di.error }, got.1)

  unfoldable pub dm_handle_mkdir :
      DmStore kc → ℕ → DirectoryInode → ValueWithPathRequest → PureValueResponse × DmStore kc
  dm_handle_mkdir s now junk req =
      let done = mkdir ar fs s now junk req.path (owned_inode junk req.value) in
      (record { value = done.0 }, done.1)

  unfoldable pub dm_handle_rmdir :
      (ℕ → Text) → DmStore kc → ValueWithPathRequest → Option (PureValueResponse × DmStore kc)
  dm_handle_rmdir moved s req =
      rmdir ar fs moved s req.path >>= λ done. some (record { value = done.0 }, done.1)

  -- The handler does not set `len`.
  unfoldable pub dm_handle_readdir : DmStore kc → RawResponse → ValueWithPathRequest → RawResponse
  dm_handle_readdir s resp req = record resp { raw = strncpy (readdir ar fs s req.path) raw_size }

  -- One request, with the time and the uninitialised memory that its handler meets. `none` is
  -- undefined behaviour.
  unfoldable pub dm_step : DmStore kc → DmCall → Option (DmStore kc)
  dm_step s c = elim c.request [
    | stat_request req ↦ some (dm_handle_stat s c.now c.junk c.resp req).1
    | access_request req ↦ some s
    | mkdir_request req ↦ some (dm_handle_mkdir s c.now c.junk req).1
    | rmdir_request req ↦ dm_handle_rmdir c.moved s req >>= λ done. some done.1
    | readdir_request req ↦ some s
  ]

  unfoldable pub dm_run : DmStore kc → List DmCall → Option (DmStore kc)
  dm_run s [] = some s
  dm_run s (c ∷ calls) = dm_step s c >>= λ s'. dm_run s' calls
