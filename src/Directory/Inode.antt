-- ===== src/Directory/Inode.antt =====
-- include/fs/inode.hpp and include/fs/DMStore.h: the inode of a directory and the fields that are
-- archived. A 64-bit field is a number below 2 ^ 64, the bit pattern.
use undergraduate_project.Shared.{ℕ, Text, ℤ}

pub record DirectoryInode : Type 0 where
  pub ctime : ℕ
  pub mode : ℕ
  pub uid : ℕ
  pub gid : ℕ
  pub status : ℕ
  pub old_name : Text
  pub error : ℤ
  pub uuid : ℕ

-- `#define ON_USE 0` and its neighbours.
abbrev pub on_use : ℕ
on_use = 0

abbrev pub renamed : ℕ
renamed = 2

-- What `serialize` writes; `error` is not among it.
abbrev pub DirFields : Type 0
DirFields = ℕ × ℕ × ℕ × ℕ × ℕ × Text × ℕ

abbrev pub serialize : DirectoryInode → DirFields
serialize d = (d.ctime, d.gid, d.uid, d.mode, d.status, d.old_name, d.uuid)

-- Reading back into an inode leaves its `error` alone.
abbrev pub deserialize : DirFields → DirectoryInode → DirectoryInode
deserialize f d = record {
  ctime = f.0;
  gid = f.1;
  uid = f.2;
  mode = f.3;
  status = f.4;
  old_name = f.5;
  error = d.error;
  uuid = f.6;
}
