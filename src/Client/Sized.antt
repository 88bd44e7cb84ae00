-- ===== src/Client/Sized.antt =====
-- `LocofsClient::write` and then `LocofsClient::stat`, through the file server.
use undergraduate_project.Shared.{
  ℕ, ◌+◌, ◌<◌, ◌≡◌, refl, sym, ap, ◌∙◌, arith, ltb, if◌then◌else◌, true, List, length, some, Text,
  text_eq_refl, success, is_zero,
}
use undergraduate_project.External.{CacheDb, IsWritable, Archive, PathLib}
use undergraduate_project.Messages.{Stat, strncpy, max_path_len}
use undergraduate_project.Directory.Inode.{DirFields}
use undergraduate_project.File.Inode.{
  FileAccessInode, FileContentInode, FileInode, serialize_access, serialize_content,
}
use undergraduate_project.File.Store.{FmStore, Archives}
use undergraduate_project.File.Operations.{get_attr}
use undergraduate_project.File.Server.{fm_handle_stat, fm_handle_csize}
use undergraduate_project.File.Laws.{access_at, content_at, get_attr_stored}
use undergraduate_project.File.Removal.{csize_shown}
use undergraduate_project.Client.Cluster.{Scratch, Cluster, path_request}
use undergraduate_project.Client.Keys.{get_file_key, get_file_stat, set_content_inode}
use undergraduate_project.Client.Found.{get_file_key-file, get_file_key_again}
use undergraduate_project.Client.Created.{stat_at}
use undergraduate_project.Client.Calls.{stat}
use undergraduate_project.Client.Transfer.{Pages, fresh_page, write_loop}
use undergraduate_project.Client.TransferLaws.{write_loop_ends}
use undergraduate_project.Client.ReadBack.{page_of}
use undergraduate_project.Client.Files.{write}

module _ {kc : CacheDb} (ar : Archives) (fs : PathLib) where
  -- `getAttr` stores the two inodes again as they were.
  get_attr_keeps :
      (s : FmStore kc) (out : FileInode) (key : Text) (fa : FileAccessInode) (fc : FileContentInode)
      → IsWritable kc
      → access_at ar fs s key ≡ some (ar.access.save (serialize_access fa))
      → content_at ar fs s key ≡ some (ar.content.save (serialize_content fc))
      → let t = (get_attr ar fs s out key).1 in
        (access_at ar fs t key ≡ some (ar.access.save (serialize_access fa)))
        × (content_at ar fs t key ≡ some (ar.content.save (serialize_content fc)))
  unfolding get_attr undergraduate_project.File.Store.get_inode
      undergraduate_project.File.Store.set_inode
  get_attr_keeps s out key fa fc w ha hc =
      let access = ar.access.save (serialize_access fa) in
      let content = ar.content.save (serialize_content fc) in
      ground (
        arith,
        ar.access.load-save (serialize_access fa),
        ar.content.load-save (serialize_content fc),
        kc.get-set s.file_access_store.db key access key,
        kc.get-set s.file_content_store.db key content key,
        w.set_done s.file_access_store.db key access,
        w.set_done s.file_content_store.db key content,
        text_eq_refl key,
      )

  -- The handler of a stat of a file that is there.
  pub stat_shows :
      (s : FmStore kc) (w : Scratch) (value : ℕ) (key : Text) (fa : FileAccessInode)
      (fc : FileContentInode)
      → let k = strncpy key max_path_len in
        access_at ar fs s k ≡ some (ar.access.save (serialize_access fa))
        → content_at ar fs s k ≡ some (ar.content.save (serialize_content fc))
        → let answer = fm_handle_stat ar fs s w.fi w.file_resp (path_request value key) in
          (answer.0.result ≡ success)
          × (answer.0.file_stat.st.st_size ≡ fc.size)
          × (answer.0.file_stat.block_size ≡ fc.block_size)
          × (answer.1 ≡ (get_attr ar fs s w.fi k).1)
          × (answer.0.file_stat.sid ≡ fc.sid)
          × (answer.0.file_stat.suuid ≡ fc.suuid)
  unfolding fm_handle_stat path_request
  stat_shows s w value key fa fc ha hc =
      let shown = get_attr_stored ar fs s w.fi (strncpy key max_path_len) fa fc ha hc in
      ground (arith, shown)

  -- The handlers of the size and then of a stat.
  size_shows :
      (s : FmStore kc) (w later : Scratch) (value size : ℕ) (key : Text) (fa : FileAccessInode)
      (fc : FileContentInode)
      → IsWritable kc
      → let k = strncpy key max_path_len in
        access_at ar fs s k ≡ some (ar.access.save (serialize_access fa))
        → content_at ar fs s k ≡ some (ar.content.save (serialize_content fc))
        → let sized = fm_handle_csize ar fs s w.fci w.fci (path_request size key) in
          let answer =
            fm_handle_stat ar fs sized.1 later.fi later.file_resp (path_request value key) in
          (sized.0.value ≡ success)
          × (answer.0.result ≡ success)
          × (answer.0.file_stat.st.st_size ≡ size)
          × (answer.0.file_stat.block_size ≡ fc.block_size)
          × (answer.0.file_stat.sid ≡ fc.sid)
          × (answer.0.file_stat.suuid ≡ fc.suuid)
  unfolding fm_handle_csize fm_handle_stat path_request
  size_shows s w later value size key fa fc writable ha hc =
      let shown =
        csize_shown ar fs s w.fci (record w.fci { size = size }) fc later.fi
          (strncpy key max_path_len) fa writable ha hc in
      ground (arith, shown)

module _ {kc : CacheDb} (ar : Archive DirFields) (far : Archives) (fs : PathLib)
    (capacity : ℕ) where
  -- The stat of a file whose key is found, by its server's answer.
  pub file_stat_at :
      (c : Cluster kc) (w : Scratch) (path key : Text)
      → (get_file_key ar far fs c w path).0 ≡ some key
      → let got = get_file_key ar far fs c w path in
        let answer = fm_handle_stat far fs c.file w.fi w.file_resp (path_request w.value key) in
        get_file_stat ar far fs c w path
        ≡ ((is_zero answer.0.result, answer.0.file_stat), record got.1 { file = answer.1 })
  unfolding get_file_stat
  file_stat_at c w path key found =
      let server = get_file_key-file ar far fs c w path in rw (get_file_stat, found, server) refl

  -- The end of a write whose loop ended, by the server's answer.
  write_done :
      (c : Cluster kc) (pages pages' : Pages) (w : Scratch) (junk buf : List ℕ) (path key : Text)
      (off : ℕ)
      → let got = get_file_stat ar far fs c w path in
        let st = got.0.1 in
        let named = get_file_key ar far fs got.1 w path in
        let end = off + length buf in
        let size = if ltb end st.st.st_size then st.st.st_size else end in
        let called = fm_handle_csize far fs named.1.file w.fci w.fci (path_request size key) in
        got.0.0 ≡ true
        → named.0 ≡ some key
        → called.0.value ≡ success
        → write_loop
            (page_of capacity st)
            st.block_size
            (length buf)
            pages
            (fresh_page junk)
            off
            buf
          ≡ some pages'
        → write ar far fs capacity c pages w junk path buf off
          ≡ some (true, record named.1 { file = called.1 }, pages')
  unfolding write set_content_inode
  write_done c pages pages' w junk buf path key off known found good stored =
      ground (arith, known, found, good, stored)

  -- On servers whose databases take every write, a client writes to a file that it finds and that has
  -- both inodes, with a block size that is not zero. Then `write` answers true, and a later `stat`
  -- succeeds and gives as the size the old one or the end of the write, whichever is more. The later
  -- answer of the file server has the numbers and the block size of the one before.
  pub write_then_stat :
      (c : Cluster kc) (pages : Pages) (w later : Scratch) (junk buf : List ℕ) (path key : Text)
      (off : ℕ) (fa : FileAccessInode) (fc : FileContentInode)
      → let k = strncpy key max_path_len in
        let end = off + length buf in
        IsWritable kc
        → (get_file_key ar far fs c w path).0 ≡ some key
        → access_at far fs c.file k ≡ some (far.access.save (serialize_access fa))
        → content_at far fs c.file k ≡ some (far.content.save (serialize_content fc))
        → 0 < fc.block_size
        → (c' : Cluster kc) × (pages' : Pages) × (write ar far fs capacity c pages w junk path buf
              off
            ≡ some (true, c', pages'))
          × (st : Stat) × ((stat ar far fs c' later path).0 ≡ some st)
          × (st.st_size ≡ (if ltb end fc.size then fc.size else end))
          × ((get_file_stat ar far fs c' later path).0.0 ≡ true)
          × ((get_file_stat ar far fs c' later path).0.1.sid
              ≡ (get_file_stat ar far fs c w path).0.1.sid)
          × ((get_file_stat ar far fs c' later path).0.1.suuid
              ≡ (get_file_stat ar far fs c w path).0.1.suuid)
          × ((get_file_stat ar far fs c' later path).0.1.block_size
              ≡ (get_file_stat ar far fs c w path).0.1.block_size)
          × ((get_file_stat ar far fs c' later path).0.1.st.st_size
              ≡ (if ltb end fc.size then fc.size else end))
  write_then_stat c pages w later junk buf path key off fa fc writable found ha hc positive =
      let k = strncpy key max_path_len in
      let end = off + length buf in
      let got = get_file_stat ar far fs c w path in
      let st = got.0.1 in
      let named = get_file_key ar far fs got.1 w path in
      let size = if ltb end st.st.st_size then st.st.st_size else end in
      let answer = fm_handle_stat far fs c.file w.fi w.file_resp (path_request w.value key) in
      let called = fm_handle_csize far fs named.1.file w.fci w.fci (path_request size key) in
      let shown = stat_shows far fs c.file w w.value key fa fc ha hc in
      let first = file_stat_at c w path key found in
      let again : named.0 ≡ some key =
        rw first (get_file_key_again ar far fs c w w path key answer.1 found) in
      let server : named.1.file ≡ (get_attr far fs c.file w.fi k).1 =
        get_file_key-file ar far fs got.1 w path ∙ rw first shown.3 in
      let kept = get_attr_keeps far fs c.file w.fi k fa fc writable ha hc in
      let sized =
        size_shows far fs named.1.file w later later.value size key fa fc writable
          (rw server kept.0) (rw server kept.1) in
      let c' = record named.1 { file = called.1 } in
      let found' = get_file_key_again ar far fs got.1 w later path key called.1 again in
      let last = file_stat_at c' later path key found' in
      let known : got.0.0 ≡ true = rw (first, shown.0) refl in
      let blocks : st.block_size ≡ fc.block_size = rw first shown.2 in
      let size_eq : st.st.st_size ≡ fc.size = rw first shown.1 in
      let loop =
        write_loop_ends (page_of capacity st) st.block_size (length buf) pages (fresh_page junk) off
          buf (omega (arith, blocks)) (omega arith) in
      (
        c',
        loop.0,
        write_done c pages loop.0 w junk buf path key off known again sized.0 loop.1,
        _,
        stat_at ar far fs c' later path key called.1 found'
            (get_file_key-file ar far fs c' later path) sized.1,
        sized.2 ∙ ap (λ n. if ltb end n then n else end) size_eq,
        rw (last, sized.1) refl,
        ap (λ r. r.0.1.sid) last ∙ sized.4 ∙ sym (ap (λ r. r.0.1.sid) first ∙ shown.4),
        ap (λ r. r.0.1.suuid) last ∙ sized.5 ∙ sym (ap (λ r. r.0.1.suuid) first ∙ shown.5),
        ap (λ r. r.0.1.block_size) last
            ∙ sized.3
            ∙ sym (ap (λ r. r.0.1.block_size) first ∙ shown.2),
        ap (λ r. r.0.1.st.st_size) last ∙ sized.2 ∙ ap (λ n. if ltb end n then n else end) size_eq,
      )
