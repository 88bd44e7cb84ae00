-- ===== src/Client/Keys.antt =====
-- The private helpers of `LocofsClient`: paths, directory ids with their cache, and file keys.
use undergraduate_project.Shared.{
  ℕ, ◌-◌, Text, [], ◌∷◌, Bool, not, ◌&&◌, Option, none, some, ◌==◌, if◌then◌else◌, length, get_or,
  take, negsuc, to_string, is_negative, is_zero,
}
use undergraduate_project.External.{CacheDb, Archive, PathLib}
use undergraduate_project.Messages.{LocoFileStat}
use undergraduate_project.Directory.Inode.{DirFields}
use undergraduate_project.Directory.Server.{dm_handle_stat}
use undergraduate_project.File.Inode.{FileContentInode}
use undergraduate_project.File.Store.{Archives}
use undergraduate_project.File.Server.{fm_handle_stat}
use undergraduate_project.Client.Cache.{get, set}
use undergraduate_project.Client.Cluster.{Scratch, Cluster, path_request}

-- `_check_path`: one final slash goes. On the empty path it reads before the string: `none`.
unfoldable pub check_path : Text → Option Text
check_path [] = none
check_path (c ∷ path) =
    let p = c ∷ path in
    some (
      if not (length p == 1) && get_or p (length p - 1) 0 == 0x2f then take (length p - 1) p else p)

unfoldable pub set_content_inode : FileContentInode → LocoFileStat → FileContentInode
set_content_inode fci loco_st = record fci {
  mtime = loco_st.st.st_mtime;
  atime = loco_st.st.st_atime;
  size = loco_st.st.st_size;
  block_size = loco_st.block_size;
  suuid = loco_st.suuid;
  sid = loco_st.sid;
}

module _ {kc : CacheDb} (ar : Archive DirFields) (far : Archives) (fs : PathLib) where
  -- `_get_uuid`, with `none` for `false`. Whether to set the cache is not looked at.
  unfoldable pub get_uuid : Cluster kc → Scratch → Text → Option ℕ × Cluster kc
  unfolding get set
  get_uuid c w path =
      let hit = get c.ucache w.now path in
      let called =
        dm_handle_stat ar fs c.directory w.now w.di w.dir_resp (path_request w.value path) in
      let c' = record c { directory = called.1 } in
      let uuid = called.0.dir_stat.uuid in
      elim hit.0 [
        | some found ↦ (some found, record c { ucache = hit.1 })
        | none ↦
            if is_negative called.0.result
            then (none, c')
            else (some uuid, record c' { ucache = (set c.ucache w.now path uuid (negsuc 0)).1 })
      ]

  -- `_get_file_key`
  unfoldable pub get_file_key : Cluster kc → Scratch → Text → Option Text × Cluster kc
  unfolding get_uuid
  get_file_key c w path =
      let got = get_uuid c w (fs.parent_path path) in
      elim got.0 [
        | none ↦ (none, got.1)
        | some uuid ↦ (some (fs.join (to_string uuid ∷ fs.filename path ∷ []) (0x3a ∷ [])), got.1)
      ]

  -- `_get_file_stat`: without a key the empty one is asked for.
  unfoldable pub get_file_stat : Cluster kc → Scratch → Text → (Bool × LocoFileStat) × Cluster kc
  unfolding get_file_key
  get_file_stat c w path =
      let got = get_file_key c w path in
      let key : Text = elim got.0 [ none ↦ [] | some k ↦ k ] in
      let called = fm_handle_stat far fs got.1.file w.fi w.file_resp (path_request w.value key) in
      ((is_zero called.0.result, called.0.file_stat), record got.1 { file = called.1 })

  -- `_get_object_key`, with `none` for `false`.
  unfoldable pub get_object_key : Cluster kc → Scratch → Text → ℕ → Option Text × Cluster kc
  unfolding get_file_stat
  get_object_key c w path obj_id =
      let got = get_file_stat c w path in
      let st = got.0.1 in
      let key =
        fs.join (to_string st.sid ∷ to_string st.suuid ∷ to_string obj_id ∷ []) (0x3a ∷ []) in
      (if got.0.0 then some key else none, got.1)
