-- ===== src/File/Inode.antt =====
-- include/fs/inode.hpp and include/fs/FMStore.h: the two inodes of a file, and what is archived of
-- them. A 64-bit field is a number below 2 ^ 64, the bit pattern.
use undergraduate_project.Shared.{ℕ, Text, ℤ}

pub record FileAccessInode : Type 0 where
  pub mode : ℕ
  pub ctime : ℕ
  pub uid : ℕ
  pub gid : ℕ
  pub error : ℤ

pub record FileContentInode : Type 0 where
  pub mtime : ℕ
  pub atime : ℕ
  pub size : ℕ
  pub block_size : ℕ
  pub origin_name : Text
  pub error : ℤ
  pub suuid : ℕ
  pub sid : ℕ

pub record FileInode : Type 0 where
  pub fc : FileContentInode
  pub fa : FileAccessInode
  pub error : ℤ

abbrev pub AccessFields : Type 0
AccessFields = ℕ × ℕ × ℕ × ℕ

abbrev pub serialize_access : FileAccessInode → AccessFields
serialize_access d = (d.ctime, d.gid, d.uid, d.mode)

abbrev pub deserialize_access : AccessFields → FileAccessInode → FileAccessInode
deserialize_access f d = record { ctime = f.0; gid = f.1; uid = f.2; mode = f.3; error = d.error }

abbrev pub ContentFields : Type 0
ContentFields = ℕ × ℕ × ℕ × ℕ × Text × ℕ × ℕ

abbrev pub serialize_content : FileContentInode → ContentFields
serialize_content d = (d.atime, d.block_size, d.mtime, d.size, d.origin_name, d.suuid, d.sid)

abbrev pub deserialize_content : ContentFields → FileContentInode → FileContentInode
deserialize_content f d = record {
  atime = f.0;
  block_size = f.1;
  mtime = f.2;
  size = f.3;
  origin_name = f.4;
  suuid = f.5;
  sid = f.6;
  error = d.error;
}
