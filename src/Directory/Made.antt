-- ===== src/Directory/Made.antt =====
-- `DMStore::mkdir` and `DMStore::getAttr` together, on the path that is made.
use undergraduate_project.Shared.{
  Text, text_eq_refl, colon_key, to_string, ◌≡◌, ◌∙◌, sym, subst, ◌⊎◌, inl, inr, none, some, ◌>>=◌,
  arith, Option-cases, ℕ, ℤ, success, failure,
}
use undergraduate_project.External.{CacheDb, Archive, PathLib}
use undergraduate_project.Directory.Inode.{DirectoryInode, DirFields, serialize, deserialize}
use undergraduate_project.Directory.Store.{DmStore, get_value, look, get_uuid}
use undergraduate_project.Directory.Operations.{
  next_uuid, new_inode, mkdir_key, mkdir_at, mkdir, get_attr,
}
use undergraduate_project.Directory.Resolve.{Extends, IsChildPath, get_uuid_child, get_uuid-Extends}
use undergraduate_project.Directory.Create.{mkdir-Extends, IsCreatable, mkdir_done, mkdir_new}

module _ {kc : CacheDb} (ar : Archive DirFields) (fs : PathLib) where
  -- `getAttr` at a path whose inode is stored.
  pub get_attr_stored :
      (s : DmStore kc) (later : ℕ) (out : DirectoryInode) (path u : Text) (di : DirectoryInode)
      → get_uuid fs s path ≡ some u
      → kc.get s.dm_store.db u ≡ some (ar.save (serialize di))
      → (get_attr ar fs s later out path).0
        ≡ record (deserialize (serialize di) out) { ctime = later; error = success }
  unfolding get_attr get_value
  get_attr_stored s later out path u di found stored = ground (arith, ar.load-save (serialize di))

  -- Where the parent is there and the name is free, `mkdir` answers 0, and from then on the path
  -- resolves to the next uuid, and `getAttr` at it reports no error and the mode, user, group and
  -- uuid of the new directory.
  pub mkdir_creates :
      (s : DmStore kc) (now later : ℕ) (junk out : DirectoryInode) (path : Text)
      (di : DirectoryInode) (puuid : Text)
      → IsCreatable ar fs s path puuid
      → let made = mkdir ar fs s now junk path di in
        let shown = (get_attr ar fs made.1 later out path).0 in
        (made.0 ≡ success)
        × (get_uuid fs made.1 path ≡ some (to_string (next_uuid s)))
        × (shown.error ≡ success)
        × (shown.mode ≡ di.mode)
        × (shown.uid ≡ di.uid)
        × (shown.gid ≡ di.gid)
        × (shown.uuid ≡ next_uuid s)
  unfolding mkdir_done new_inode
  mkdir_creates s now later junk out path di puuid c =
      let n = next_uuid s in
      let t = mkdir_done ar fs s now junk path di puuid in
      let key = colon_key puuid (fs.filename path) in
      let inode = new_inode n now junk path di in
      let value = ar.save (serialize inode) in
      let made = mkdir_new ar fs s now junk path di puuid c in
      let grown : Extends (look fs s) (look fs t) = λ k u e.
        subst (λ (r : ℤ × DmStore kc). look fs r.1 k ≡ some u) made
          (mkdir-Extends ar fs s now junk path di k u e) in
      let parent : get_uuid fs t (fs.parent_path path) ≡ some puuid =
        get_uuid-Extends fs s t (fs.parent_path path) grown c.parent in
      let entered : look fs t key ≡ some (to_string n) = ground (
        arith,
        kc.get-set s.uuid_store.db key (to_string n) key,
        text_eq_refl key,
        c.writable.set_done s.uuid_store.db key (to_string n),
      ) in
      let resolved : get_uuid fs t path ≡ some (to_string n) =
        get_uuid_child fs t path c.child ∙ rw (parent, ◌>>=◌) entered in
      let stored : kc.get t.dm_store.db (to_string n) ≡ some value = ground (
        arith,
        kc.get-set s.dm_store.db (to_string n) value (to_string n),
        text_eq_refl (to_string n),
        c.writable.set_done s.dm_store.db (to_string n) value,
      ) in
      rw made (ground (arith, get_attr_stored t later out path (to_string n) inode resolved stored))

  -- Where the path is there already, or its parent is missing, `mkdir` answers -1 and has changed
  -- nothing but the counter of uuids.
  pub mkdir_refuses :
      (s : DmStore kc) (now : ℕ) (junk : DirectoryInode) (path : Text) (di : DirectoryInode)
      → IsChildPath fs path
      → ((u : Text) × (get_uuid fs s path ≡ some u)) ⊎ (get_uuid fs s (fs.parent_path path) ≡ none)
      → mkdir ar fs s now junk path di ≡ (failure, record s { uuid_counter = next_uuid s })
  unfolding mkdir mkdir_key mkdir_at get_uuid
  mkdir_refuses s now junk path di c (inr orphan) = ground (arith, c.below_root)
  mkdir_refuses s now junk path di c (inl (u, there)) =
      elim (Option-cases (get_uuid fs s (fs.parent_path path))) [
        | inl orphan ↦ ground (arith, c.below_root)
        | inr (p, found) ↦
            let taken : look fs s (colon_key p (fs.filename path)) ≡ some u =
              sym (rw (found, ◌>>=◌) at (get_uuid_child fs s path c)) ∙ there in
            ground (arith, c.below_root)
      ]
