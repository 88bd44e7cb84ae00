-- ===== src/Client/Calls.antt =====
-- The calls of `LocofsClient` on names and attributes. A call returns `none` where the code meets
-- undefined behaviour: an empty path, or a server's `remove_entry` on a name that is not listed.
use Prim.Native.Nat.{bit_or}
use undergraduate_project.Shared.{
  ℕ, Text, List, [], ◌∷◌, ◌++◌, Bool, true, false, Option, none, some, ◌>>=◌, if◌then◌else◌,
  is_negative, is_zero,
}
use undergraduate_project.External.{CacheDb, Archive, PathLib}
use undergraduate_project.Messages.{Stat}
use undergraduate_project.Directory.Inode.{DirFields}
use undergraduate_project.Directory.Server.{
  dm_handle_stat, dm_handle_mkdir, dm_handle_rmdir, dm_handle_readdir,
}
use undergraduate_project.File.Store.{FmStore, Archives}
use undergraduate_project.File.Server.{
  fm_handle_access, fm_handle_stat, fm_handle_create, fm_handle_remove, fm_handle_readdir,
}
use undergraduate_project.Client.Cache
use undergraduate_project.Client.Cluster.{Scratch, Cluster, path_request, raw_text}
use undergraduate_project.Client.Keys.{check_path, get_uuid, get_file_key}

-- `S_IFDIR`, and the mode that `open` creates a file with, `0777`.
abbrev pub dir_bit : ℕ
dir_bit = 0o40000

abbrev pub open_mode : ℕ
open_mode = 0o777

unfoldable pub location : Text → ℕ
location path = 0

module _ {kc : CacheDb} (ar : Archive DirFields) (far : Archives) (fs : PathLib) where
  -- The mode of the caller is not sent: the request holds what its memory held.
  unfoldable pub mkdir : Cluster kc → Scratch → Text → Option (Bool × Cluster kc)
  mkdir c w path = ◌>>=◌ {B = Bool × Cluster kc} (check_path path) λ p.
      let called = dm_handle_mkdir ar fs c.directory w.now w.di (path_request w.value p) in
      some (is_zero called.0.value, record c { directory = called.1 })

  -- A directory is not opened.
  unfoldable pub opendir : Cluster kc → Text → ℕ → Bool × Cluster kc
  opendir c path mode = (false, c)

  unfoldable pub create : Cluster kc → Scratch → Text → Option (Bool × Cluster kc)
  unfolding get_file_key
  create c w path = ◌>>=◌ {B = Bool × Cluster kc} (check_path path) λ p.
      let got = get_file_key ar far fs c w p in
      elim got.0 [
        | none ↦ some (false, got.1)
        | some key ↦
            let called = fm_handle_create far fs got.1.file w.fi w.fai (path_request w.value key) in
            some (is_zero called.0.value, record got.1 { file = called.1 })
      ]

  -- If the file does not exist, create one.
  unfoldable pub open_file : Cluster kc → Scratch → Text → Bool × Cluster kc
  unfolding get_file_key
  open_file c w path =
      let got = get_file_key ar far fs c w path in
      elim got.0 [
        | none ↦ (false, got.1)
        | some key ↦
            let there = fm_handle_access far fs got.1.file w.fai (path_request w.value key) in
            let called =
              fm_handle_create far fs got.1.file w.fi w.fai (path_request open_mode key) in
            if is_zero there.value
            then (true, got.1)
            else (is_zero called.0.value, record got.1 { file = called.1 })
      ]

  unfoldable pub rmdir : Cluster kc → Scratch → Text → Option (Bool × Cluster kc)
  rmdir c w path = ◌>>=◌ {B = Bool × Cluster kc} (check_path path) λ p.
      ◌>>=◌ {B = Bool × Cluster kc}
        (dm_handle_rmdir ar fs w.moved c.directory (path_request w.value p))
        λ called.
          let c' = record c { directory = called.1 } in
          some (
            if is_zero called.0.value
            then (true, record c' { ucache = (Cache.remove c'.ucache p).1 })
            else (false, c'))

  unfoldable pub unlink : Cluster kc → Scratch → Text → Option (Bool × Cluster kc)
  unfolding get_file_key
  unlink c w path =
      let got = get_file_key ar far fs c w path in
      elim got.0 [
        | none ↦ some (false, got.1)
        | some key ↦
            ◌>>=◌ {B = Bool × Cluster kc}
              (fm_handle_remove far fs w.moved got.1.file (path_request w.value key))
              λ called. some (is_zero called.0.value, record got.1 { file = called.1 })
      ]

  -- The attributes that the caller's buffer gets, or `none` for `false`.
  unfoldable pub stat : Cluster kc → Scratch → Text → Option Stat × Cluster kc
  unfolding get_file_key
  stat c w path =
      let got = get_file_key ar far fs c w path in
      elim got.0 [
        | none ↦ (none, got.1)
        | some key ↦
            let called =
              fm_handle_stat far fs got.1.file w.fi w.file_resp (path_request w.value key) in
            (
              if is_negative called.0.result then none else some called.0.file_stat.st,
              record got.1 { file = called.1 },
            )
      ]

  unfoldable pub statdir : Cluster kc → Scratch → Text → Option (Option Stat × Cluster kc)
  statdir c w path = ◌>>=◌ {B = Option Stat × Cluster kc} (check_path path) λ p.
      let called =
        dm_handle_stat ar fs c.directory w.now w.di w.dir_resp (path_request w.value p) in
      let st = called.0.dir_stat.st in
      some (
        if is_negative called.0.result
            then none
            else some (record st { st_mode = bit_or dir_bit st.st_mode }),
        record c { directory = called.1 },
      )

  -- The names of the files of a directory, server by server.
  unfoldable pub file_names : Scratch → ℕ → List (FmStore kc) → List Text
  file_names w uuid [] = []
  file_names w uuid (s ∷ servers) =
      fs.split_tab (raw_text w.after_raw (fm_handle_readdir far fs s (record { value = uuid })))
      ++ file_names w uuid servers

  -- The names, or `none` for `false`.
  unfoldable pub readdir : Cluster kc → Scratch → Text → Option (Option (List Text) × Cluster kc)
  unfolding get_uuid
  readdir c w path = ◌>>=◌ {B = Option (List Text) × Cluster kc} (check_path path) λ p.
      let resp = dm_handle_readdir ar fs c.directory w.raw_resp (path_request w.value p) in
      let subdirs = fs.split_tab (raw_text w.after_raw resp) in
      let got = get_uuid ar far fs c w p in
      some (elim got.0 [
        | none ↦ (none, got.1)
        | some uuid ↦ (some (subdirs ++ file_names w uuid (got.1.file ∷ got.1.other_files)), got.1)
      ])
