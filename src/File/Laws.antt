-- ===== src/File/Laws.antt =====
-- `FMStore::create` and `FMStore::getAttr`: the file of a key, the other files, and the listing.
use undergraduate_project.Shared.{
  ◌+◌, ◌%◌, ◌^◌, Text, text_eq, text_eq_refl, ◌≡◌, ◌≢◌, ◌⊎◌, refl, ap, ◌∙◌, text_eq_ne, success,
  failure, false, Option, some, [], ◌∷◌, arith, Bool-cases, inl, inr,
}
use undergraduate_project.External.{CacheDb, IsWritable, PathLib}
use undergraduate_project.Storage.KvStore
use undergraduate_project.Storage.KvStore.{KvStore}
use undergraduate_project.Storage.EntryList
use undergraduate_project.File.Inode.{
  FileAccessInode, FileContentInode, FileInode, serialize_access, deserialize_access,
  serialize_content, deserialize_content,
}
use undergraduate_project.File.Store.{FmStore, Archives, set_access, set_content, get_inode}
use undergraduate_project.File.Operations.{
  new_access, new_content, key_parts, create_entry, create, get_attr, block_size_default,
}

module _ {kc : CacheDb} (ar : Archives) (fs : PathLib) where
  abbrev pub access_at : FmStore kc → Text → Option Text
  access_at s key = kc.get s.file_access_store.db key

  abbrev pub content_at : FmStore kc → Text → Option Text
  content_at s key = kc.get s.file_content_store.db key

  -- `getAttr` where both inodes are stored.
  pub get_attr_stored :
      (s : FmStore kc) (out : FileInode) (key : Text) (fa : FileAccessInode) (fc : FileContentInode)
      → access_at s key ≡ some (ar.access.save (serialize_access fa))
      → content_at s key ≡ some (ar.content.save (serialize_content fc))
      → (get_attr ar fs s out key).0 ≡ record {
        fa = deserialize_access (serialize_access fa) out.fa;
        fc = deserialize_content (serialize_content fc) out.fc;
        error = success;
      }
  unfolding get_attr get_inode
  get_attr_stored s out key fa fc ha hc = ground (
    arith,
    ar.access.load-save (serialize_access fa),
    ar.content.load-save (serialize_content fc),
  )

  -- What `getAttr` shows of a key depends on the two records of that key alone.
  pub get_attr_local :
      (s t : FmStore kc) (out : FileInode) (key : Text)
      → access_at t key ≡ access_at s key
      → content_at t key ≡ content_at s key
      → (get_attr ar fs t out key).0 ≡ (get_attr ar fs s out key).0
  unfolding get_attr get_inode
  get_attr_local s t out key ha hc = ground arith

  create_entry-stores :
      (s : FmStore kc) (key : Text)
      → ((create_entry ar fs s key).file_access_store ≡ s.file_access_store)
        × ((create_entry ar fs s key).file_content_store ≡ s.file_content_store)
  unfolding create_entry
  create_entry-stores s key = ground arith

  -- The store after the access inode of a new file is stored, and after both are.
  with_access : FmStore kc → FileInode → Text → FileAccessInode → FmStore kc
  with_access s junk key fa = record s {
    suuid_counter = (s.suuid_counter + 1) % 2 ^ 64;
    file_access_store =
        (KvStore.set_value s.file_access_store key
          (ar.access.save (serialize_access (new_access junk.fa fa)))).1;
  }

  with_both : FmStore kc → FileInode → Text → FileAccessInode → FmStore kc
  with_both s junk key fa = record (with_access s junk key fa) {
    file_content_store =
        (KvStore.set_value s.file_content_store key
          (ar.content.save (serialize_content (new_content s junk.fc key)))).1;
  }

  -- The three ways in which `create` ends.
  create_cases :
      (s : FmStore kc) (junk : FileInode) (key : Text) (fa : FileAccessInode)
      → (create ar fs s junk key fa ≡ (failure, with_access s junk key fa))
        ⊎ ((create ar fs s junk key fa ≡ (failure, with_both s junk key fa))
            ⊎ (create ar fs s junk key fa
                ≡ (success, create_entry ar fs (with_both s junk key fa) key)))
  unfolding create set_access set_content with_access with_both
  create_cases s junk key fa =
      let access = ar.access.save (serialize_access (new_access junk.fa fa)) in
      let content = ar.content.save (serialize_content (new_content s junk.fc key)) in
      elim (Bool-cases (kc.set s.file_access_store.db key access).0) [
        | inl stored ↦ elim (Bool-cases (kc.set s.file_content_store.db key content).0) [
          | inl stored' ↦ inr (inr (rw (stored, stored')))
          | inr failed' ↦ inr (inl (rw (stored, failed')))
        ]
        | inr failed ↦ inl (rw failed)
      ]

  create_new :
      (s : FmStore kc) (junk : FileInode) (key : Text) (fa : FileAccessInode)
      → IsWritable kc
      → create ar fs s junk key fa ≡ (success, create_entry ar fs (with_both s junk key fa) key)
  unfolding create set_access set_content with_access with_both
  create_new s junk key fa w =
      let access = ar.access.save (serialize_access (new_access junk.fa fa)) in
      let content = ar.content.save (serialize_content (new_content s junk.fc key)) in
      rw (
        w.set_done s.file_access_store.db key access,
        w.set_done s.file_content_store.db key content,
      )

  -- The records that `create` leaves where the databases can be written.
  create_records :
      (s : FmStore kc) (junk : FileInode) (key : Text) (fa : FileAccessInode)
      → IsWritable kc
      → let t = create_entry ar fs (with_both s junk key fa) key in
        (access_at t key ≡ some (ar.access.save (serialize_access (new_access junk.fa fa))))
        × (content_at t key
            ≡ some (ar.content.save (serialize_content (new_content s junk.fc key))))
  unfolding with_access with_both
  create_records s junk key fa w =
      let access = ar.access.save (serialize_access (new_access junk.fa fa)) in
      let content = ar.content.save (serialize_content (new_content s junk.fc key)) in
      ground (
        arith,
        create_entry-stores (with_both s junk key fa) key,
        w.set_done s.file_access_store.db key access,
        w.set_done s.file_content_store.db key content,
        kc.get-set s.file_access_store.db key access key,
        kc.get-set s.file_content_store.db key content key,
        text_eq_refl key,
      )

  -- Where the databases can be written, `create` answers 0, and `getAttr` then shows an empty file
  -- with the given mode, user and group, blocks of 4096 bytes, and the suuid of the counter.
  pub create_shown :
      (s : FmStore kc) (junk out : FileInode) (key : Text) (fa : FileAccessInode)
      → IsWritable kc
      → let made = create ar fs s junk key fa in
        let shown = (get_attr ar fs made.1 out key).0 in
        (made.0 ≡ success)
        × (shown.error ≡ success)
        × (shown.fa.mode ≡ fa.mode)
        × (shown.fa.uid ≡ fa.uid)
        × (shown.fa.gid ≡ fa.gid)
        × (shown.fc.size ≡ 0)
        × (shown.fc.block_size ≡ block_size_default)
        × (shown.fc.suuid ≡ s.suuid_counter)
        × (shown.fc.sid ≡ s.sid_num)
  unfolding new_access new_content
  create_shown s junk out key fa w =
      let made = create_records s junk key fa w in
      let t = create_entry ar fs (with_both s junk key fa) key in
      rw (create_new s junk key fa w) (
        ground (
          arith,
          get_attr_stored t out key (new_access junk.fa fa) (new_content s junk.fc key) made.0
              made.1,
        ))

  with_access-other :
      (s : FmStore kc) (junk : FileInode) (key j : Text) (fa : FileAccessInode)
      → text_eq key j ≡ false
      → access_at (with_both s junk key fa) j ≡ access_at s j
  unfolding with_both with_access
  with_access-other s junk key j fa other =
      let access = ar.access.save (serialize_access (new_access junk.fa fa)) in
      ground (arith, kc.get-set s.file_access_store.db key access j)

  with_both-other :
      (s : FmStore kc) (junk : FileInode) (key j : Text) (fa : FileAccessInode)
      → text_eq key j ≡ false
      → content_at (with_both s junk key fa) j ≡ content_at s j
  unfolding with_both with_access
  with_both-other s junk key j fa other =
      let content = ar.content.save (serialize_content (new_content s junk.fc key)) in
      ground (arith, kc.get-set s.file_content_store.db key content j)

  -- Whether it succeeds or not, `create` of one key changes nothing that `getAttr` shows of another.
  pub create_frame :
      (s : FmStore kc) (junk out : FileInode) (key j : Text) (fa : FileAccessInode)
      → key ≢ j
      → (get_attr ar fs (create ar fs s junk key fa).1 out j).0 ≡ (get_attr ar fs s out j).0
  unfolding with_both with_access
  create_frame s junk out key j fa h =
      let t = with_access s junk key fa in
      let u = with_both s junk key fa in
      let other = text_eq_ne key j h in
      elim (create_cases s junk key fa) [
        | inl e ↦ rw e (get_attr_local s t out j (with_access-other s junk key j fa other) refl)
        | inr (inl e) ↦ rw e (
            get_attr_local s u out j (with_access-other s junk key j fa other)
              (with_both-other s junk key j fa other))
        | inr (inr e) ↦
            let kept = create_entry-stores u key in
            rw e (
              get_attr_local s (create_entry ar fs u key) out j
                (ap (λ (r : KvStore kc). kc.get r.db j) kept.0
                  ∙ with_access-other s junk key j fa other)
                (ap (λ (r : KvStore kc). kc.get r.db j) kept.1
                  ∙ with_both-other s junk key j fa other))
      ]

  -- `create` of a key with two parts puts the second at the end of the listing of the first, whether
  -- the file is new or not.
  pub create_lists :
      (s : FmStore kc) (junk : FileInode) (key uuid name : Text) (fa : FileAccessInode)
      → IsWritable kc
      → key_parts fs key ≡ uuid ∷ name ∷ []
      → (create ar fs s junk key fa).1.ec_store ≡ (EntryList.insert_entry s.ec_store uuid name).1
  unfolding create set_access set_content create_entry
  create_lists s junk key uuid name fa w e =
      let access = ar.access.save (serialize_access (new_access junk.fa fa)) in
      let content = ar.content.save (serialize_content (new_content s junk.fc key)) in
      ground (
        arith,
        w.set_done s.file_access_store.db key access,
        w.set_done s.file_content_store.db key content,
      )
