-- ===== src/Client/Found.antt =====
-- File keys and the cache of ids: a second lookup after a first one, with another file server.
use undergraduate_project.Shared.{
  ℕ, ◌+◌, Text, text_eq, [], ◌∷◌, none, some, ◌≡◌, refl, sym, ap, ◌∙◌, inl, inr, arith, Bool-cases,
  Option-cases, negsuc, to_string, is_negative,
}
use undergraduate_project.External.{CacheDb, Archive, PathLib}
use undergraduate_project.Directory.Inode.{DirFields}
use undergraduate_project.File.Store.{FmStore, Archives}
use undergraduate_project.Directory.Store.{DmStore}
use undergraduate_project.Messages.{DirStatResponse}
use undergraduate_project.Directory.Server.{dm_handle_stat}
use undergraduate_project.Client.Cache.{CacheData, Entries, LruCache, find, touch, get, set}
use undergraduate_project.Client.CacheLaws.{set_get}
use undergraduate_project.Client.Cluster.{Scratch, Cluster, path_request}
use undergraduate_project.Client.Keys.{get_uuid, get_file_key}

module _ {ℓ} {V : Type ℓ} where
  find-touch :
      (m : Entries V) (key : Text) (now : ℕ) (d : CacheData V)
      → find m key ≡ some d
      → find (touch m key now) key ≡ some (record d { count = d.count + 1; update_time = now })
  unfolding find touch
  find-touch [] key now d h = absurd (ground arith)
  find-touch (e ∷ m) key now d h = elim (Bool-cases (text_eq e.0 key)) [
    | inl y ↦ ground arith
    | inr n ↦ rw (n, n) (find-touch m key now d (rw n at h))
  ]

  -- A hit is a hit again.
  get-get :
      (c : LruCache V) (now later : ℕ) (key : Text) (v : V)
      → (get c now key).0 ≡ some v
      → (get (get c now key).1 later key).0 ≡ some v
  unfolding get
  get-get c now later key v h = elim (Option-cases (find c.cache_map key)) [
    | inl e ↦ absurd (ground arith)
    | inr (d, e) ↦ let again = find-touch c.cache_map key now d e in ground arith
  ]

  find_missed :
      (c : LruCache V) (now : ℕ) (key : Text)
      → (get c now key).0 ≡ none
      → find c.cache_map key ≡ none
  unfolding get
  find_missed c now key h = ground arith

module _ {kc : CacheDb} (ar : Archive DirFields) (far : Archives) (fs : PathLib) where
  get_uuid-file :
      (c : Cluster kc) (w : Scratch) (path : Text) → (get_uuid ar far fs c w path).1.file ≡ c.file
  unfolding get_uuid
  get_uuid-file c w path = ground arith

  get_uuid_hit :
      (c : Cluster kc) (w : Scratch) (path : Text) (v : ℕ)
      → (get c.ucache w.now path).0 ≡ some v
      → get_uuid ar far fs c w path ≡ (some v, record c { ucache = (get c.ucache w.now path).1 })
  unfolding get_uuid
  get_uuid_hit c w path v h = rw (get_uuid, h) refl

  -- The directory server's answer, and what it is then.
  asked : Cluster kc → Scratch → Text → DirStatResponse × DmStore kc
  asked c w path =
      dm_handle_stat ar fs c.directory w.now w.di w.dir_resp (path_request w.value path)

  get_uuid_miss :
      (c : Cluster kc) (w : Scratch) (path : Text) (uuid : ℕ)
      → (get c.ucache w.now path).0 ≡ none
      → (get_uuid ar far fs c w path).0 ≡ some uuid
      → get_uuid ar far fs c w path ≡ (
        some uuid,
        record c {
          directory = (asked c w path).1;
          ucache = (set c.ucache w.now path uuid (negsuc 0)).1;
        },
      )
  unfolding get_uuid asked
  get_uuid_miss c w path uuid miss h = elim (Bool-cases (is_negative (asked c w path).0.result)) [
    | inl n ↦ absurd (ground arith)
    | inr p ↦ ground arith
  ]

  get_uuid_again :
      (c : Cluster kc) (w later : Scratch) (path : Text) (uuid : ℕ) (f : FmStore kc)
      → (get_uuid ar far fs c w path).0 ≡ some uuid
      → (get_uuid ar far fs (record (get_uuid ar far fs c w path).1 { file = f }) later path).0
        ≡ some uuid
  unfolding get_uuid
  get_uuid_again c w later path uuid f h = elim (Option-cases (get c.ucache w.now path).0) [
    | inl miss ↦
        let first = get_uuid_miss c w path uuid miss h in
        let absent = find_missed c.ucache w.now path miss in
        rw first (
          ap (λ r. r.0)
            (get_uuid_hit _ later path uuid
              (set_get c.ucache w.now later.now path uuid (negsuc 0) absent)))
    | inr (v, hit) ↦
        let first = get_uuid_hit c w path v hit in
        let same : some v ≡ some uuid = sym (ap (λ r. r.0) first) ∙ h in
        rw first (
          ap (λ r. r.0) (get_uuid_hit _ later path v (get-get c.ucache w.now later.now path v hit))
          ∙ same)
  ]

  pub get_file_key-file :
      (c : Cluster kc) (w : Scratch) (path : Text)
      → (get_file_key ar far fs c w path).1.file ≡ c.file
  unfolding get_file_key
  get_file_key-file c w path =
      elim (Option-cases (get_uuid ar far fs c w (fs.parent_path path)).0) [
        | inl e ↦ rw (get_file_key, e) (get_uuid-file c w (fs.parent_path path))
        | inr (u, e) ↦ rw (get_file_key, e) (get_uuid-file c w (fs.parent_path path))
      ]

  key_at :
      (c : Cluster kc) (w : Scratch) (path : Text) (u : ℕ)
      → (get_uuid ar far fs c w (fs.parent_path path)).0 ≡ some u
      → get_file_key ar far fs c w path ≡ (
        some (fs.join (to_string u ∷ fs.filename path ∷ []) (0x3a ∷ [])),
        (get_uuid ar far fs c w (fs.parent_path path)).1,
      )
  unfolding get_file_key
  key_at c w path u e = rw (get_file_key, e) refl

  -- A file key that was found is found again after the file server has changed.
  pub get_file_key_again :
      (c : Cluster kc) (w later : Scratch) (path key : Text) (f : FmStore kc)
      → (get_file_key ar far fs c w path).0 ≡ some key
      → (get_file_key ar far fs
          (record (get_file_key ar far fs c w path).1 { file = f })
          later
          path).0
        ≡ some key
  unfolding get_file_key
  get_file_key_again c w later path key f h =
      elim (Option-cases (get_uuid ar far fs c w (fs.parent_path path)).0) [
        | inl e ↦ absurd (ground arith)
        | inr (u, e) ↦
            let first = key_at c w path u e in
            let again = get_uuid_again c w later (fs.parent_path path) u f e in
            rw first (ap (λ r. r.0) (key_at _ later path u again) ∙ sym (ap (λ r. r.0) first) ∙ h)
      ]
