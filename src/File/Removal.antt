-- ===== src/File/Removal.antt =====
-- `FMStore::csize` and `FMStore::remove`.
use undergraduate_project.Shared.{
  ℕ, Text, text_eq, text_eq_refl, text_eq_ne, ◌≡◌, ◌≢◌, refl, success, failure, none, some,
  if◌then◌else◌, arith,
}
use undergraduate_project.External.{CacheDb, IsWritable, PathLib}
use undergraduate_project.Storage.KvStore
use undergraduate_project.File.Inode.{
  FileAccessInode, FileContentInode, FileInode, serialize_access, deserialize_access,
  serialize_content, deserialize_content,
}
use undergraduate_project.File.Store.{
  FmStore, Archives, get_access, get_content, set_content, get_inode,
}
use undergraduate_project.File.Operations.{access, remove_key_entry, remove, csize, get_attr}
use undergraduate_project.File.Laws.{access_at, content_at, get_attr_stored, get_attr_local}

-- The content inode that `csize` stores.
abbrev resized : FileContentInode → FileContentInode → FileContentInode → FileContentInode
resized junk fc old = record (deserialize_content (serialize_content old) junk) { size = fc.size }

module _ {kc : CacheDb} (ar : Archives) (fs : PathLib) where
  csize_new :
      (s : FmStore kc) (junk fc old : FileContentInode) (key : Text)
      → IsWritable kc
      → content_at ar fs s key ≡ some (ar.content.save (serialize_content old))
      → csize ar fs s junk key fc ≡ (
        success,
        record s {
          file_content_store =
              (KvStore.set_value s.file_content_store key
                (ar.content.save (serialize_content (resized junk fc old)))).1;
        },
      )
  unfolding csize get_content set_content
  csize_new s junk fc old key w hc =
      let value = ar.content.save (serialize_content (resized junk fc old)) in
      ground (
        arith,
        ar.content.load-save (serialize_content old),
        w.set_done s.file_content_store.db key value,
      )

  -- `csize` of a file that is there answers 0, and `getAttr` then shows the new size and every other
  -- field as it was stored.
  pub csize_shown :
      (s : FmStore kc) (junk fc old : FileContentInode) (out : FileInode) (key : Text)
      (fa : FileAccessInode)
      → IsWritable kc
      → access_at ar fs s key ≡ some (ar.access.save (serialize_access fa))
      → content_at ar fs s key ≡ some (ar.content.save (serialize_content old))
      → let sized = csize ar fs s junk key fc in
        (sized.0 ≡ success)
        × ((get_attr ar fs sized.1 out key).0 ≡ record {
          fa = deserialize_access (serialize_access fa) out.fa;
          fc = record (deserialize_content (serialize_content old) out.fc) { size = fc.size };
          error = success;
        })
  csize_shown s junk fc old out key fa w ha hc =
      let fcc = resized junk fc old in
      let value = ar.content.save (serialize_content fcc) in
      let stored = KvStore.set_value s.file_content_store key value in
      let t : FmStore kc = record s { file_content_store = stored.1 } in
      let held : content_at ar fs t key ≡ some value = ground (
        arith,
        kc.get-set s.file_content_store.db key value key,
        w.set_done s.file_content_store.db key value,
        text_eq_refl key,
      ) in
      rw (csize_new s junk fc old key w hc) (refl, get_attr_stored ar fs t out key fa fcc ha held)

  -- `csize` of a file that is not there answers -1 and changes nothing.
  pub csize_absent :
      (s : FmStore kc) (junk fc : FileContentInode) (key : Text)
      → content_at ar fs s key ≡ none
      → csize ar fs s junk key fc ≡ (failure, s)
  unfolding csize get_content
  csize_absent s junk fc key hc = ground arith

  remove_records :
      (moved : ℕ → Text) (s t : FmStore kc) (key k : Text)
      → remove ar fs moved s key ≡ some (success, t)
      → (access_at ar fs t k ≡ (if text_eq key k then none else access_at ar fs s k))
        × (content_at ar fs t k ≡ (if text_eq key k then none else content_at ar fs s k))
  unfolding remove remove_key_entry
  remove_records moved s t key k e = ground (
    arith,
    kc.get-remove s.file_access_store.db key k,
    kc.get-remove s.file_content_store.db key k,
  )

  -- After a `remove` that answers 0 the file can be neither accessed nor shown, and every other key
  -- is shown as before.
  pub remove_removes :
      (moved : ℕ → Text) (s t : FmStore kc) (key : Text)
      → remove ar fs moved s key ≡ some (success, t)
      → ((junk : FileAccessInode) → access ar fs t junk key ≡ failure)
        × ((out : FileInode) → (get_attr ar fs t out key).0.error ≡ failure)
        × ((out : FileInode) (j : Text)
            → key ≢ j
            → (get_attr ar fs t out j).0 ≡ (get_attr ar fs s out j).0)
  remove_removes moved s t key e =
      let gone = remove_records moved s t key key e in
      let same = text_eq_refl key in
      (
        λ junk. unfold access get_access in ground arith,
        λ out. unfold get_attr get_inode in ground arith,
        λ out j h.
            let kept = remove_records moved s t key j e in
            let other = text_eq_ne key j h in
            get_attr_local ar fs s t out j (ground arith) (ground arith),
      )
