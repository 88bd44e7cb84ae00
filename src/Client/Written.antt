-- ===== src/Client/Written.antt =====
-- `LocofsClient::write` and then `LocofsClient::read` by the same client, through the file server.
use undergraduate_project.Shared.{
  ℕ, ◌+◌, ◌*◌, ◌≤◌, ◌<◌, ◌≡◌, refl, sym, ap, ◌∙◌, arith, ltb, if◌then◌else◌, true, List, length,
  some, none, pos, Text,
}
use undergraduate_project.External.{CacheDb, IsWritable, Archive, PathLib}
use undergraduate_project.Messages.{strncpy, max_path_len}
use undergraduate_project.Directory.Inode.{DirFields}
use undergraduate_project.File.Inode.{
  FileAccessInode, FileContentInode, serialize_access, serialize_content,
}
use undergraduate_project.File.Store.{Archives}
use undergraduate_project.File.Laws.{access_at, content_at}
use undergraduate_project.Client.Cluster.{Scratch, Cluster}
use undergraduate_project.Client.Keys.{get_file_key, get_file_stat}
use undergraduate_project.Client.Transfer.{page_size, Pages}
use undergraduate_project.Client.Bytes.{bytes_at}
use undergraduate_project.Client.FileBytes.{AllFull, byte_of, Distinct, IsPartial, after_write}
use undergraduate_project.Client.ReadBack.{page_of, write_then_client_read}
use undergraduate_project.Client.Files.{write, read}
use undergraduate_project.Client.Sized.{stat_shows, file_stat_at, write_then_stat}

module _ {kc : CacheDb} (ar : Archive DirFields) (far : Archives) (fs : PathLib)
    (capacity : ℕ) where
  -- The databases of the servers take every write, all pages are of the full size, and a client finds a
  -- file that has both inodes, a block size that is not zero and at most that of a page, and blocks
  -- with pages of their own. It writes to a range of those blocks that covers no whole page. Then
  -- `write` answers true, and `read` by the same client of any range of those blocks, up to the end of
  -- the file as it is now, gives the buffer where it was written and the old bytes everywhere else.
  pub write_then_read_again :
      (c : Cluster kc) (pages : Pages) (w later : Scratch) (junk buf : List ℕ) (path key : Text)
      (off at len blocks : ℕ) (fa : FileAccessInode) (fc : FileContentInode)
      → let k = strncpy key max_path_len in
        let end = off + length buf in
        let st = (get_file_stat ar far fs c w path).0.1 in
        let block_no = page_of capacity st in
        let size = st.block_size in
        IsWritable kc
        → (get_file_key ar far fs c w path).0 ≡ some key
        → access_at far fs c.file k ≡ some (far.access.save (serialize_access fa))
        → content_at far fs c.file k ≡ some (far.content.save (serialize_content fc))
        → 0 < fc.block_size
        → fc.block_size ≤ page_size
        → IsPartial size off (length buf)
        → AllFull pages
        → Distinct block_no size blocks
        → end ≤ size * blocks
        → at + len ≤ size * blocks
        → at + len ≤ (if ltb end fc.size then fc.size else end)
        → (c' : Cluster kc) × (pages' : Pages) × (write ar far fs capacity c pages w junk path buf
              off
            ≡ some (true, c', pages'))
          × (read ar far fs capacity c' pages' later path len at
              ≡ some (
                pos len,
                bytes_at (after_write (byte_of block_no size pages) off buf) at len,
                (get_file_stat ar far fs c' later path).1,
              ))
  write_then_read_again c pages w later junk buf path key off at len blocks fa fc writable found ha
        hc positive fits part full distinct below below' inside =
      let st = (get_file_stat ar far fs c w path).0.1 in
      let shown = stat_shows far fs c.file w w.value key fa fc ha hc in
      let first = file_stat_at ar far fs capacity c w path key found in
      let known : (get_file_stat ar far fs c w path).0.0 ≡ true = rw (first, shown.0) refl in
      let size_eq : st.block_size ≡ fc.block_size = ap (λ r. r.0.1.block_size) first ∙ shown.2 in
      let done =
        write_then_stat ar far fs capacity c pages w later junk buf path key off fa fc writable
          found ha hc positive in
      let seen =
        write_then_client_read ar far fs capacity c done.0 pages w later junk buf path off at len
          blocks known done.6 done.7 done.8 done.9 (omega (arith, done.10, inside))
          (omega (arith, size_eq)) (omega (arith, size_eq)) part full distinct below below' in
      let same : seen.2 ≡ done.1 =
        ap (λ r. elim r [ none ↦ pages | some t ↦ t.2 ]) (sym seen.3 ∙ done.2) in
      (
        done.0,
        done.1,
        done.2,
        ap (λ p. read ar far fs capacity done.0 p later path len at) (sym same) ∙ seen.4,
      )
