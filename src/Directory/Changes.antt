-- ===== src/Directory/Changes.antt =====
-- `chmod`, `chown`, `rmdir` and `rename` of `DMStore`.
use undergraduate_project.Shared.{
  ℕ, Text, text_eq, text_eq_refl, colon_key, ◌≡◌, refl, sym, ◌∙◌, Option, none, some, ◌>>=◌, arith,
  Option-cases, inl, inr, success, if◌then◌else◌,
}
use undergraduate_project.External.{CacheDb, IsWritable, Archive, PathLib}
use undergraduate_project.Storage.KvStore
use undergraduate_project.Directory.Inode.{DirectoryInode, DirFields, serialize, deserialize}
use undergraduate_project.Directory.Store.{
  DmStore, get_value, set_value, look, get_uuid, get_2_uuid,
}
use undergraduate_project.Directory.Operations.{
  chmod, chown, rmdir_at, rmdir, mark_renamed, rename_entry, rename_at, rename,
}
use undergraduate_project.Directory.Resolve.{
  Extends, IsChildPath, get_uuid_child, get_2_uuid_child, get_uuid-Extends,
}

-- Two lookups in a row that found something.
bind_parts :
    (o : Option Text) (g : Text → Option Text) (p u : Text)
    → ◌>>=◌ {B = Text × Text} o (λ q. ◌>>=◌ {B = Text × Text} (g q) (λ r. some (q, r)))
      ≡ some (p, u)
    → (o ≡ some p) × (g p ≡ some u)
bind_parts none g p u e = absurd (ground arith)
bind_parts (some q) g p u e = elim (Option-cases (g q)) [
  | inl miss ↦ absurd (ground arith)
  | inr (r, hit) ↦ ground arith
]

module _ {kc : CacheDb} (ar : Archive DirFields) (fs : PathLib) where
  -- What is read back after `setValue` under the same uuid.
  get_value-set_value :
      (s : DmStore kc) (u : Text) (di out : DirectoryInode)
      → IsWritable kc
      → get_value ar (set_value ar s u di).1 u out ≡ (success, deserialize (serialize di) out)
  unfolding get_value set_value
  get_value-set_value s u di out w = ground (
    arith,
    kc.get-set s.dm_store.db u (ar.save (serialize di)) u,
    w.set_done s.dm_store.db u (ar.save (serialize di)),
    text_eq_refl u,
    ar.load-save (serialize di),
  )

  -- `chmod` of a directory that is there answers 0, and the inode that it stores is its argument
  -- `di`: not only the mode but the user, group, times, name and uuid are those of the argument.
  pub chmod_stores_argument :
      (s : DmStore kc) (now : ℕ) (junk out : DirectoryInode) (path u : Text) (di : DirectoryInode)
      → IsWritable kc
      → get_uuid fs s path ≡ some u
      → ((chmod ar fs s now junk path di).0 ≡ success)
        × (get_value ar (chmod ar fs s now junk path di).1 u out
            ≡ (success, deserialize (serialize di) out))
  unfolding chmod
  chmod_stores_argument s now junk out path u di w found =
      ground (arith, get_value-set_value s u di out w)

  -- `chown` of a directory whose inode is stored replaces the user, the group and the change time,
  -- and keeps every other field.
  pub chown_keeps_rest :
      (s : DmStore kc) (now : ℕ) (junk out : DirectoryInode) (path u : Text)
      (di old : DirectoryInode)
      → IsWritable kc
      → get_uuid fs s path ≡ some u
      → kc.get s.dm_store.db u ≡ some (ar.save (serialize old))
      → ((chown ar fs s now junk path di).0 ≡ success)
        × (get_value ar (chown ar fs s now junk path di).1 u out ≡ (
          success,
          record (deserialize (serialize old) out) { uid = di.uid; gid = di.gid; ctime = now },
        ))
  unfolding chown
  chown_keeps_rest s now junk out path u di old w found stored =
      let read : get_value ar s u junk ≡ (success, deserialize (serialize old) junk) =
        unfold get_value in ground (arith, ar.load-save (serialize old)) in
      let dii : DirectoryInode = record (deserialize (serialize old) junk) {
        uid = di.uid;
        gid = di.gid;
        ctime = now;
      } in
      ground (arith, get_value-set_value s u dii out w)

  rmdir_at-look :
      (moved : ℕ → Text) (s : DmStore kc) (puuid uuid name k : Text) (t : DmStore kc)
      → rmdir_at ar fs moved s puuid uuid name ≡ some (success, t)
      → look fs t k ≡ (if text_eq (colon_key puuid name) k then none else look fs s k)
  unfolding rmdir_at
  rmdir_at-look moved s puuid uuid name k t e =
      ground (arith, kc.get-remove s.uuid_store.db (colon_key puuid name) k)

  get_2_uuid_parts :
      (s : DmStore kc) (path puuid uuid : Text)
      → IsChildPath fs path
      → get_2_uuid fs s path ≡ some (puuid, uuid)
      → (get_uuid fs s (fs.parent_path path) ≡ some puuid)
        × (look fs s (colon_key puuid (fs.filename path)) ≡ some uuid)
  get_2_uuid_parts s path puuid uuid c e =
      bind_parts (get_uuid fs s (fs.parent_path path))
        (λ p. look fs s (colon_key p (fs.filename path))) puuid uuid
        (sym (get_2_uuid_child fs s path c) ∙ e)

  -- After a `rmdir` that answers 0, on a path below the root, the path no longer resolves, and every
  -- path that still does resolves as before.
  pub rmdir_removes :
      (moved : ℕ → Text) (s t : DmStore kc) (path q : Text)
      → IsChildPath fs path
      → rmdir ar fs moved s path ≡ some (success, t)
      → (get_uuid fs t path ≡ none)
        × ((u : Text) → get_uuid fs t q ≡ some u → get_uuid fs s q ≡ some u)
  unfolding rmdir
  rmdir_removes moved s t path q c e = elim (Option-cases (get_2_uuid fs s path)) [
    | inl miss ↦ absurd (ground arith)
    | inr ((puuid, uuid), hit) ↦
        let name = fs.filename path in
        let done : rmdir_at ar fs moved s puuid uuid name ≡ some (success, t) = ground arith in
        let shrinks : Extends (look fs t) (look fs s) =
          λ k u h. ground (arith, rmdir_at-look moved s puuid uuid name k t done) in
        let parts = get_2_uuid_parts s path puuid uuid c hit in
        (
          elim (Option-cases (get_uuid fs t (fs.parent_path path))) [
            | inl orphan ↦ get_uuid_child fs t path c ∙ rw (orphan, ◌>>=◌)
            | inr (p, found) ↦
                let kept = get_uuid-Extends fs t s (fs.parent_path path) shrinks found in
                get_uuid_child fs t path c
                ∙ rw (found, ◌>>=◌)
                    (ground (
                      arith,
                      text_eq_refl (colon_key puuid name),
                      rmdir_at-look moved s puuid uuid name (colon_key puuid name) t done,
                    ))
          ],
          λ u h. get_uuid-Extends fs t s q shrinks h,
        )
  ]

  mark_renamed-look :
      (s : DmStore kc) (now : ℕ) (junk : DirectoryInode) (uuid : Text)
      → (mark_renamed ar fs s now junk uuid).uuid_store ≡ s.uuid_store
  unfolding mark_renamed set_value
  mark_renamed-look s now junk uuid = refl

  rename_at-look :
      (moved : ℕ → Text) (s t : DmStore kc) (now : ℕ) (junk : DirectoryInode)
      (puuid uuid old new k : Text)
      → rename_at ar fs moved s now junk puuid uuid old new ≡ some (success, t)
      → look fs t k ≡ (
          if text_eq (colon_key puuid new) k
          then some uuid
          else if text_eq (colon_key puuid old) k
          then none
          else look fs s k)
  unfolding rename_at rename_entry
  rename_at-look moved s t now junk puuid uuid old new k e =
      let removed = KvStore.remove s.uuid_store (colon_key puuid old) in
      let added = KvStore.set_value removed.1 (colon_key puuid new) uuid in
      ground (
        arith,
        mark_renamed-look (record s { uuid_store = added.1 }) now junk uuid,
        kc.get-remove s.uuid_store.db (colon_key puuid old) k,
        kc.get-set removed.1.db (colon_key puuid new) uuid k,
      )

  -- A `rename` that answers 0 moves the directory's uuid from the key of its old name to that of the
  -- new one UNDER THE SAME PARENT, whatever directory the new path names, and changes no other key.
  pub rename_stays_under_parent :
      (moved : ℕ → Text) (s t : DmStore kc) (now : ℕ) (junk : DirectoryInode)
      (old_path new_path puuid uuid : Text)
      → get_2_uuid fs s old_path ≡ some (puuid, uuid)
      → rename ar fs moved s now junk old_path new_path ≡ some (success, t)
      → (k : Text)
      → look fs t k ≡ (
          if text_eq (colon_key puuid (fs.filename new_path)) k
          then some uuid
          else if text_eq (colon_key puuid (fs.filename old_path)) k
          then none
          else look fs s k)
  unfolding rename
  rename_stays_under_parent moved s t now junk old_path new_path puuid uuid hit e k =
      rename_at-look moved s t now junk puuid uuid (fs.filename old_path) (fs.filename new_path) k
        (rw (hit, rename) at e)
