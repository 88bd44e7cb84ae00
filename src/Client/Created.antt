-- ===== src/Client/Created.antt =====
-- Calls of one client one after another, through its cache and the file server.
use undergraduate_project.Shared.{◌%◌, ◌^◌, Text, true, ◌>>=◌, some, ◌≡◌, refl, arith, success}
use undergraduate_project.External.{CacheDb, IsWritable, Archive, PathLib}
use undergraduate_project.Messages.{Stat, strncpy, max_path_len}
use undergraduate_project.Directory.Inode.{DirFields}
use undergraduate_project.File.Inode.{FileAccessInode}
use undergraduate_project.File.Store.{FmStore, Archives}
use undergraduate_project.File.Server.{owner, file_mode, fm_handle_create, fm_handle_stat}
use undergraduate_project.File.Laws.{create_shown}
use undergraduate_project.Client.Cluster.{Scratch, Cluster, path_request}
use undergraduate_project.Client.Keys.{check_path, get_file_key}
use undergraduate_project.Client.Found.{get_file_key-file, get_file_key_again}
use undergraduate_project.Client.Calls.{create, stat}

module _ {kc : CacheDb} (ar : Archive DirFields) (far : Archives) (fs : PathLib) where
  abbrev created : FmStore kc → Scratch → Text → FmStore kc
  created s w key = (fm_handle_create far fs s w.fi w.fai (path_request w.value key)).1

  shown_by_create :
      (s : FmStore kc) (w later : Scratch) (key : Text)
      → IsWritable kc
      → let answer = fm_handle_create far fs s w.fi w.fai (path_request w.value key) in
        let shown =
          fm_handle_stat far fs answer.1 later.fi later.file_resp (path_request later.value key) in
        (answer.0.value ≡ success)
        × (shown.0.result ≡ success)
        × (shown.0.file_stat.st.st_size ≡ 0)
        × (shown.0.file_stat.st.st_mode ≡ file_mode)
        × (shown.0.file_stat.st.st_uid ≡ owner)
        × (shown.0.file_stat.st.st_gid ≡ owner)
  unfolding fm_handle_create fm_handle_stat path_request
  shown_by_create s w later key writable =
      let path = strncpy key max_path_len in
      let fai : FileAccessInode = record w.fai {
        mode = w.value % 2 ^ 32;
        uid = owner;
        gid = owner;
      } in
      let made = create_shown far fs s w.fi later.fi path fai writable in ground arith

  create_done :
      (c : Cluster kc) (w : Scratch) (path key : Text)
      → IsWritable kc
      → check_path path ≡ some path
      → (get_file_key ar far fs c w path).0 ≡ some key
      → let got = get_file_key ar far fs c w path in
        create ar far fs c w path ≡ some (true, record got.1 { file = created got.1.file w key })
  unfolding create fm_handle_create
  create_done c w path key writable checked found =
      let answered =
        (shown_by_create (get_file_key ar far fs c w path).1.file w w key writable).0 in
      rw (create, checked, ◌>>=◌, found, answered) refl

  pub stat_at :
      (c : Cluster kc) (w : Scratch) (path key : Text) (s : FmStore kc)
      → (get_file_key ar far fs c w path).0 ≡ some key
      → (get_file_key ar far fs c w path).1.file ≡ s
      → let answer = fm_handle_stat far fs s w.fi w.file_resp (path_request w.value key) in
        answer.0.result ≡ success → (stat ar far fs c w path).0 ≡ some answer.0.file_stat.st
  unfolding stat
  stat_at c w path key s found server good = rw (stat, found, server, good) refl

  -- On servers whose databases take every write, a file that `create` made in a directory that the
  -- client finds is there: `create` answers true, and a later `stat` gives a regular file of size 0
  -- that belongs to the servers' owner.
  pub create_then_stat :
      (c : Cluster kc) (w later : Scratch) (path key : Text)
      → IsWritable kc
      → check_path path ≡ some path
      → (get_file_key ar far fs c w path).0 ≡ some key
      → (c' : Cluster kc) × (create ar far fs c w path ≡ some (true, c'))
        × (st : Stat) × ((stat ar far fs c' later path).0 ≡ some st)
        × (st.st_size ≡ 0)
        × (st.st_mode ≡ file_mode)
        × (st.st_uid ≡ owner)
        × (st.st_gid ≡ owner)
  unfolding stat fm_handle_stat
  create_then_stat c w later path key writable checked found =
      let got = get_file_key ar far fs c w path in
      let done = create_done c w path key writable checked found in
      let c' = record got.1 { file = created got.1.file w key } in
      let again =
        get_file_key_again ar far fs c w later path key (created got.1.file w key) found in
      let server = get_file_key-file ar far fs c' later path in
      let shown = shown_by_create got.1.file w later key writable in
      (
        c',
        done,
        _,
        stat_at c' later path key c'.file again server shown.1,
        shown.2,
        shown.3,
        shown.4,
        shown.5,
      )
