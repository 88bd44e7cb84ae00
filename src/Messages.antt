-- ===== src/Messages.antt =====
-- include/network/msg.hpp and include/fs/inode.hpp: what travels between a client and the metadata
-- servers, and the C strings in it. A path buffer is read as a C string, so a message holds the
-- text up to the terminator. The members of a union that a message does not use are not modelled.
use undergraduate_project.Shared.{
  ℕ, zero, suc, ◌≤◌, ◌≡◌, refl, Text, ℤ, [], ◌∷◌, ◌==◌, if◌then◌else◌, arith, length, take,
  length-take-le,
}

abbrev pub max_path_len : ℕ
max_path_len = 255

abbrev pub raw_size : ℕ
raw_size = 4089

-- `c_str()` as a C function reads it: up to the first zero byte.
abbrev pub c_str : Text → Text
c_str [] = []
c_str (c ∷ s) = let rest = c_str s in if c == 0 then [] else c ∷ rest

-- `strncpy(dst, s.c_str(), n); dst[n] = 0`, read back from `dst` as a C string.
unfoldable pub strncpy : Text → ℕ → Text
strncpy s n = take n (c_str s)

pub record PureValueRequest : Type 0 where
  pub value : ℕ

pub record ValueWithPathRequest : Type 0 where
  pub value : ℕ
  pub path : Text

pub record PureValueResponse : Type 0 where
  pub value : ℤ

-- The fields of `struct stat` that the servers fill in.
pub record Stat : Type 0 where
  pub st_mode : ℕ
  pub st_uid : ℕ
  pub st_gid : ℕ
  pub st_ctime : ℕ
  pub st_mtime : ℕ
  pub st_atime : ℕ
  pub st_size : ℕ

pub record LocoDirStat : Type 0 where
  pub st : Stat
  pub uuid : ℕ

pub record LocoFileStat : Type 0 where
  pub st : Stat
  pub suuid : ℕ
  pub sid : ℕ
  pub block_size : ℕ

-- `StatResponse` with the member `dirStat` of its union.
pub record DirStatResponse : Type 0 where
  pub result : ℤ
  pub dir_stat : LocoDirStat

-- `StatResponse` with the member `fileStat` of its union.
pub record FileStatResponse : Type 0 where
  pub result : ℤ
  pub file_stat : LocoFileStat

pub record RawResponse : Type 0 where
  pub len : ℕ
  pub raw : Text

c_str-take : (n : ℕ) (s : Text) → c_str (take n (c_str s)) ≡ take n (c_str s)
c_str-take zero s = refl
c_str-take (suc n) [] = refl
c_str-take (suc n) (c ∷ s) = ground (arith, c_str-take n s)

-- What a path buffer holds fits it, and is read back as it was copied.
pub strncpy_fits :
    (s : Text) (n : ℕ) → (length (strncpy s n) ≤ n) × (c_str (strncpy s n) ≡ strncpy s n)
unfolding strncpy
strncpy_fits s n = (length-take-le n (c_str s), c_str-take n s)
