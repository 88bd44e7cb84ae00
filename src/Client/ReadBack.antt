-- ===== src/Client/ReadBack.antt =====
-- `LocofsClient::write` and then `LocofsClient::read`, as a whole.
use undergraduate_project.Shared.{
  ℕ, ◌+◌, ◌*◌, ◌%◌, ◌≤◌, ◌<◌, ◌≡◌, ap, fun_ext, ◌∙◌, arith, ltb, if◌then◌else◌, Bool, true, false,
  List, length, some, is_zero, Text, Option-cases, inl, inr, pos,
}
use undergraduate_project.External.{CacheDb, Archive, PathLib}
use undergraduate_project.Directory.Inode.{DirFields}
use undergraduate_project.File.Store.{Archives}
use undergraduate_project.Messages.{LocoFileStat}
use undergraduate_project.Client.Cluster.{Scratch, Cluster, path_request}
use undergraduate_project.Client.Keys.{get_file_key, get_file_stat, set_content_inode}
use undergraduate_project.File.Server.{fm_handle_csize}
use undergraduate_project.Client.Transfer.{
  page_size, Pages, fresh_page, hash_obj, write_loop, read_loop,
}
use undergraduate_project.Client.Bytes.{bytes_at, length-bytes_at}
use undergraduate_project.Client.WriteBytes.{write_then_read}
use undergraduate_project.Client.FileBytes.{AllFull, byte_of, Distinct, IsPartial, after_write}
use undergraduate_project.Client.Files.{write, read}

-- The page of each block of a file.
abbrev pub page_of : ℕ → LocoFileStat → ℕ → ℕ
page_of capacity st b = hash_obj st b % capacity

-- The pages of a file depend on its two numbers only.
page_of_same :
    (capacity : ℕ) (st st' : LocoFileStat)
    → st'.sid ≡ st.sid
    → st'.suuid ≡ st.suuid
    → page_of capacity st' ≡ page_of capacity st
unfolding hash_obj
page_of_same capacity st st' e k = fun_ext (λ b. ground (arith, e, k))

module _ {kc : CacheDb} (ar : Archive DirFields) (far : Archives) (fs : PathLib)
    (capacity : ℕ) where
  -- A write of a file whose pages take the buffer returns, with those pages.
  write_returns :
      (c : Cluster kc) (pages pages' : Pages) (w : Scratch) (junk buf : List ℕ) (path : Text)
      (off : ℕ)
      → let st = (get_file_stat ar far fs c w path).0.1 in
        (get_file_stat ar far fs c w path).0.0 ≡ true
        → write_loop
            (page_of capacity st)
            st.block_size
            (length buf)
            pages
            (fresh_page junk)
            off
            buf
          ≡ some pages'
        → (ok : Bool) × (c' : Cluster kc) × (write ar far fs capacity c pages w junk path buf off
            ≡ some (ok, c', pages'))
  unfolding write
  write_returns c pages pages' w junk buf path off known stored =
      let got = get_file_stat ar far fs c w path in
      elim (Option-cases (get_file_key ar far fs got.1 w path).0) [
        | inl e ↦ (false, (get_file_key ar far fs got.1 w path).1, ground (arith, known, stored, e))
        | inr (key, e) ↦
            let st = got.0.1 in
            let end = off + length buf in
            let named = get_file_key ar far fs got.1 w path in
            let fci = set_content_inode w.fci st in
            let size = if ltb end fci.size then fci.size else end in
            let called = fm_handle_csize far fs named.1.file w.fci w.fci (path_request size key) in
            (
              is_zero called.0.value,
              record named.1 { file = called.1 },
              ground (arith, known, stored, e),
            )
      ]

  read_returns :
      (c : Cluster kc) (pages : Pages) (w : Scratch) (path : Text) (len off : ℕ)
      → let st = (get_file_stat ar far fs c w path).0.1 in
        (get_file_stat ar far fs c w path).0.0 ≡ true
        → off + len ≤ st.st.st_size
        → (loaded : List ℕ)
        → read_loop (page_of capacity st) st.block_size len pages off len ≡ some loaded
        → read ar far fs capacity c pages w path len off
          ≡ some (pos (length loaded), loaded, (get_file_stat ar far fs c w path).1)
  unfolding read
  read_returns c pages w path len off known inside loaded e =
      let size = (get_file_stat ar far fs c w path).0.1.st.st_size in
      let short : ltb size len ≡ false = ground arith in
      let within : ltb size (off + len) ≡ false = ground arith in
      ground (arith, known, short, within, e)

  -- For a file that both clients find, with a block size that is not zero and at most that of a page,
  -- and whose blocks have pages of their own, all pages being of the full size: a write that covers no
  -- whole page returns. After it, a client for which the file has the same numbers and block size, and
  -- a size that reaches the end of a range of those blocks, reads in that range the buffer where it was
  -- written and the bytes from before everywhere else.
  pub write_then_client_read :
      (c later : Cluster kc) (pages : Pages) (w w' : Scratch) (junk buf : List ℕ) (path : Text)
      (off at len blocks : ℕ)
      → let st = (get_file_stat ar far fs c w path).0.1 in
        let st' = (get_file_stat ar far fs later w' path).0.1 in
        let block_no = page_of capacity st in
        let size = st.block_size in
        (get_file_stat ar far fs c w path).0.0 ≡ true
        → (get_file_stat ar far fs later w' path).0.0 ≡ true
        → st'.sid ≡ st.sid
        → st'.suuid ≡ st.suuid
        → st'.block_size ≡ size
        → at + len ≤ st'.st.st_size
        → 0 < size
        → size ≤ page_size
        → IsPartial size off (length buf)
        → AllFull pages
        → Distinct block_no size blocks
        → off + length buf ≤ size * blocks
        → at + len ≤ size * blocks
        → (ok : Bool) × (c' : Cluster kc) × (pages' : Pages) × (write ar far fs capacity c pages w
              junk path buf off
            ≡ some (ok, c', pages'))
          × (read ar far fs capacity later pages' w' path len at
              ≡ some (
                pos len,
                bytes_at (after_write (byte_of block_no size pages) off buf) at len,
                (get_file_stat ar far fs later w' path).1,
              ))
  write_then_client_read c later pages w w' junk buf path off at len blocks known known' sid suuid
        same_size inside positive fits part full distinct below below' =
      let st = (get_file_stat ar far fs c w path).0.1 in
      let st' = (get_file_stat ar far fs later w' path).0.1 in
      let shown =
        bytes_at (after_write (byte_of (page_of capacity st) st.block_size pages) off buf) at len in
      let loops =
        write_then_read (page_of capacity st) st.block_size positive fits pages (fresh_page junk)
          off buf at len blocks part full distinct below below' in
      let written = write_returns c pages loops.0 w junk buf path off known loops.1 in
      let loaded : read_loop (page_of capacity st') st'.block_size len loops.0 at len ≡ some shown =
        ap (λ block_no. read_loop block_no st'.block_size len loops.0 at len)
          (page_of_same capacity st st' sid suuid)
        ∙ ap (λ size. read_loop (page_of capacity st) size len loops.0 at len) same_size
        ∙ loops.2 in
      (
        written.0,
        written.1,
        loops.0,
        written.2,
        read_returns later loops.0 w' path len at known' inside _ loaded
            ∙ ap (λ n. some (pos n, shown, (get_file_stat ar far fs later w' path).1))
                (length-bytes_at
                  (after_write (byte_of (page_of capacity st) st.block_size pages) off buf) at len),
      )
