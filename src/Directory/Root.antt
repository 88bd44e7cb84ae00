-- ===== src/Directory/Root.antt =====
-- The root directory, from the constructor of `DMServer` on: under which keys its inode is stored, and
-- what the requests do to those keys.
use undergraduate_project.Shared.{
  ℕ, suc, ◌+◌, ◌-◌, ◌^◌, ◌<◌, ◌≢◌, Text, text_eq, text_eq_iff, text_eq_refl, to_string,
  to_string-injective, ◌≡◌, refl, sym, ◌∙◌, none, some, List, [], ◌∷◌, length, ◌>>=◌, arith,
  Option-cases, Bool-cases, inl, inr, failure, ℤ, false,
}
use undergraduate_project.External.{CacheDb, Archive, PathLib}
use undergraduate_project.Storage.KvStore
use undergraduate_project.Messages.{DirStatResponse}
use undergraduate_project.Directory.Inode.{DirectoryInode, DirFields, serialize, deserialize}
use undergraduate_project.Directory.Store.{
  DmStore, get_value, set_value, get_uuid, get_2_uuid, root_path, root_uuid, init,
}
use undergraduate_project.Directory.Operations.{
  next_uuid, new_inode, mkdir_key, mkdir_entry, mkdir_inode, mkdir_at, mkdir, rmdir_at, rmdir,
  get_attr_at, get_attr,
}
use undergraduate_project.Directory.Server.{
  DmCall, DmRequest, stat_request, access_request, mkdir_request, rmdir_request, readdir_request,
  start, dm_handle_stat, dm_handle_mkdir, dm_handle_rmdir, dm_step, dm_run, owned_inode, root_mode,
}

root_uuid-to_string : to_string 0 ≡ root_uuid
unfolding to_string
root_uuid-to_string = refl

-- The uuid of a new directory is not the root's unless the counter wraps.
not_root : (n : ℕ) → n ≢ 0 → text_eq (to_string n) root_uuid ≡ false
not_root n h = elim (Bool-cases (text_eq (to_string n) root_uuid)) [
  | inl e ↦ absurd (h (to_string-injective n 0 ((text_eq_iff _ _).0 e ∙ sym root_uuid-to_string)))
  | inr e ↦ e
]

module _ {kc : CacheDb} (ar : Archive DirFields) (fs : PathLib) where
  -- No inode is stored for the uuid that "/" resolves to.
  abbrev pub IsRootless : DmStore kc → Type 0
  IsRootless s = kc.get s.dm_store.db root_uuid ≡ none

  mkdir_inode-IsRootless :
      (s : DmStore kc) (path puuid : Text) (dii : DirectoryInode)
      → dii.uuid ≢ 0
      → IsRootless s
      → IsRootless (mkdir_inode ar fs s path puuid dii).1
        × ((mkdir_inode ar fs s path puuid dii).1.uuid_counter ≡ s.uuid_counter)
  unfolding mkdir_inode mkdir_entry set_value
  mkdir_inode-IsRootless s path puuid dii h r = ground (
    arith,
    kc.get-set s.dm_store.db (to_string dii.uuid) (ar.save (serialize dii)) root_uuid,
    not_root dii.uuid h,
  )

  mkdir_at-IsRootless :
      (s : DmStore kc) (path puuid key : Text) (dii : DirectoryInode)
      → dii.uuid ≢ 0
      → IsRootless s
      → IsRootless (mkdir_at ar fs s path puuid key dii).1
        × ((mkdir_at ar fs s path puuid key dii).1.uuid_counter ≡ s.uuid_counter)
  unfolding mkdir_at
  mkdir_at-IsRootless s path puuid key dii h r =
      let stored = KvStore.set_value s.uuid_store key (to_string dii.uuid) in
      ground (arith, mkdir_inode-IsRootless (record s { uuid_store = stored.1 }) path puuid dii h r)

  mkdir-IsRootless :
      (s : DmStore kc) (now : ℕ) (junk : DirectoryInode) (path : Text) (di : DirectoryInode)
      → next_uuid s ≢ 0
      → IsRootless s
      → IsRootless (mkdir ar fs s now junk path di).1
        × ((mkdir ar fs s now junk path di).1.uuid_counter ≡ next_uuid s)
  unfolding mkdir new_inode
  mkdir-IsRootless s now junk path di h r =
      let counted : DmStore kc = record s { uuid_counter = next_uuid s } in
      elim (Option-cases (mkdir_key ar fs counted path)) [
        | inl refused ↦ rw (refused, mkdir) (r, refl)
        | inr ((puuid, key), found) ↦
            rw (found, mkdir)
              (mkdir_at-IsRootless counted path puuid key (new_inode (next_uuid s) now junk path di)
                h r)
      ]

  get_attr_at-IsRootless :
      (s : DmStore kc) (now : ℕ) (out : DirectoryInode) (uuid : Text)
      → IsRootless s
      → IsRootless (get_attr_at ar fs s now out uuid).1
        × ((get_attr_at ar fs s now out uuid).1.uuid_counter ≡ s.uuid_counter)
  unfolding get_attr_at get_value set_value
  get_attr_at-IsRootless s now out uuid r = elim (Option-cases (kc.get s.dm_store.db uuid)) [
    | inl miss ↦ ground arith
    | inr (value, hit) ↦
        let di : DirectoryInode = record (deserialize (ar.load value) out) { ctime = now } in
        ground (
          arith,
          kc.get-set s.dm_store.db uuid (ar.save (serialize di)) root_uuid,
          text_eq_iff uuid root_uuid,
        )
  ]

  get_attr-IsRootless :
      (s : DmStore kc) (now : ℕ) (out : DirectoryInode) (path : Text)
      → IsRootless s
      → IsRootless (get_attr ar fs s now out path).1
        × ((get_attr ar fs s now out path).1.uuid_counter ≡ s.uuid_counter)
  unfolding get_attr
  get_attr-IsRootless s now out path r = elim (Option-cases (get_uuid fs s path)) [
    | inl miss ↦ rw (miss, get_attr) (get_attr_at-IsRootless s now _ [] r)
    | inr (u, hit) ↦ rw (hit, get_attr) (get_attr_at-IsRootless s now out u r)
  ]

  rmdir_at-IsRootless :
      (moved : ℕ → Text) (s : DmStore kc) (puuid uuid name : Text) (done : ℤ × DmStore kc)
      → rmdir_at ar fs moved s puuid uuid name ≡ some done
      → IsRootless s
      → IsRootless done.1 × (done.1.uuid_counter ≡ s.uuid_counter)
  unfolding rmdir_at
  rmdir_at-IsRootless moved s puuid uuid name done e r =
      ground (arith, kc.get-remove s.dm_store.db uuid root_uuid)

  rmdir-IsRootless :
      (moved : ℕ → Text) (s : DmStore kc) (path : Text) (done : ℤ × DmStore kc)
      → rmdir ar fs moved s path ≡ some done
      → IsRootless s
      → IsRootless done.1 × (done.1.uuid_counter ≡ s.uuid_counter)
  unfolding rmdir
  rmdir-IsRootless moved s path done e r = elim (Option-cases (get_2_uuid fs s path)) [
    | inl miss ↦ ground arith
    | inr ((puuid, uuid), hit) ↦
        ground (arith, rmdir_at-IsRootless moved s puuid uuid (fs.filename path) done)
  ]

  -- `getAttr` at "/" fails while no inode is stored there.
  get_attr-root :
      (s : DmStore kc) (now : ℕ) (out : DirectoryInode)
      → IsRootless s
      → (get_attr ar fs s now out root_path).0.error ≡ failure
  unfolding get_attr get_attr_at get_value get_uuid
  get_attr-root s now out r = ground (arith, text_eq_refl root_path)

  dm_step-IsRootless :
      (s t : DmStore kc) (c : DmCall) (r : DmRequest) (m : ℕ)
      → c.request ≡ r
      → s.uuid_counter + suc m < 2 ^ 64
      → IsRootless s
      → dm_step ar fs s c ≡ some t
      → IsRootless t × (t.uuid_counter + m < 2 ^ 64)
  unfolding dm_step dm_handle_stat dm_handle_mkdir next_uuid
  dm_step-IsRootless s t c (stat_request req) m q b r e =
      ground (arith, get_attr-IsRootless s c.now c.junk req.path r)
  dm_step-IsRootless s t c (access_request req) m q b r e = ground arith
  dm_step-IsRootless s t c (mkdir_request req) m q b r e = ground (
    arith,
    mkdir-IsRootless s c.now c.junk req.path (owned_inode c.junk req.value) (ground arith) r,
  )
  dm_step-IsRootless s t c (rmdir_request req) m q b r e =
      elim (Option-cases (rmdir ar fs c.moved s req.path)) [
        | inl undefined ↦ unfold dm_handle_rmdir in ground arith
        | inr (done, ok) ↦
            unfold dm_handle_rmdir in
            let kept = rmdir-IsRootless c.moved s req.path done ok r in ground arith
      ]
  dm_step-IsRootless s t c (readdir_request req) m q b r e = ground arith

  dm_run-IsRootless :
      (s t : DmStore kc) (calls : List DmCall)
      → s.uuid_counter + length calls < 2 ^ 64
      → IsRootless s
      → dm_run ar fs s calls ≡ some t
      → IsRootless t
  unfolding dm_run
  dm_run-IsRootless s t [] b r e = ground arith
  dm_run-IsRootless s t (c ∷ calls) b r e = elim (Option-cases (dm_step ar fs s c)) [
    | inl undefined ↦ absurd (ground arith)
    | inr (next, stepped) ↦
        let kept = dm_step-IsRootless s next c c.request (length calls) refl b r stepped in
        dm_run-IsRootless next t calls kept.1 kept.0 (rw (stepped, ◌>>=◌) at e)
  ]

module _ (kc : CacheDb) (ar : Archive DirFields) (fs : PathLib) where
  start-IsRootless :
      (now : ℕ) (junk : DirectoryInode)
      → IsRootless ar fs (start {kc = kc} ar fs now junk)
        × ((start {kc = kc} ar fs now junk).uuid_counter ≡ 1)
  unfolding start next_uuid
  start-IsRootless now junk =
      mkdir-IsRootless ar fs (init kc) now junk root_path
        (record (owned_inode junk root_mode) { ctime = now; old_name = root_path }) (omega arith)
        (kc.get-opened root_uuid)

  -- Whatever requests on directories the server has handled since its start, fewer than 2 ^ 64 - 1 of
  -- them, its answer to a stat of "/" is the result -1.
  pub root_never_found :
      (now later : ℕ) (junk junk' : DirectoryInode) (resp : DirStatResponse) (value : ℕ)
      (calls : List DmCall) (t : DmStore kc)
      → length calls < 2 ^ 64 - 1
      → dm_run ar fs (start ar fs now junk) calls ≡ some t
      → (dm_handle_stat ar fs t later junk' resp
          (record { value = value; path = root_path })).0.result
        ≡ failure
  unfolding dm_handle_stat
  root_never_found now later junk junk' resp value calls t b e =
      let begun = start-IsRootless now junk in
      let kept = dm_run-IsRootless ar fs (start ar fs now junk) t calls (omega arith) begun.0 e in
      ground (arith, get_attr-root ar fs t later junk' kept)
