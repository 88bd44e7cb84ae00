-- ===== src/Client/Cluster.antt =====
-- What a client meets: its own cache of directory ids, the directory server, and the file servers of
-- `file_trans` in their order. eRPC delivers a request to the handler of its type and the answer back;
-- `NetworkInterface::rpcCall` with a free slot is then a call of the handler. Memory that is read
-- before it is written is in `Scratch`: response buffers, inodes on a handler's stack, request fields.
use undergraduate_project.Shared.{ℕ, Text, List, ◌∷◌, ◌++◌, take}
use undergraduate_project.External.{CacheDb}
use undergraduate_project.Messages.{
  ValueWithPathRequest, DirStatResponse, FileStatResponse, RawResponse, strncpy, max_path_len,
}
use undergraduate_project.Directory.Inode.{DirectoryInode}
use undergraduate_project.Directory.Store.{DmStore}
use undergraduate_project.File.Inode.{FileAccessInode, FileContentInode, FileInode}
use undergraduate_project.File.Store.{FmStore}
use undergraduate_project.Client.Cache.{LruCache}

pub record Scratch : Type 0 where
  pub now : ℕ
  pub value : ℕ
  pub di : DirectoryInode
  pub fi : FileInode
  pub fai : FileAccessInode
  pub fci : FileContentInode
  pub dir_resp : DirStatResponse
  pub file_resp : FileStatResponse
  pub raw_resp : RawResponse
  pub after_raw : Text
  pub moved : ℕ → Text

-- `file_trans` has a first server, the only one that `SERVER` gives.
pub record Cluster (kc : CacheDb) : Type 0 where
  pub ucache : LruCache ℕ
  pub directory : DmStore kc
  pub file : FmStore kc
  pub other_files : List (FmStore kc)

-- The request that every call with a path builds.
unfoldable pub path_request : ℕ → Text → ValueWithPathRequest
path_request value path = record { value = value; path = strncpy path max_path_len }

-- `std::string(response.raw, response.len)`: beyond the terminator comes what the buffer held.
unfoldable pub raw_text : Text → RawResponse → Text
raw_text after resp = take resp.len (resp.raw ++ 0 ∷ after)
