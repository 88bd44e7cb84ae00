-- ===== src/Client/Files.antt =====
-- `LocofsClient::write` and `read` as a whole. Offsets and lengths are numbers below 2 ^ 63, so the
-- signed arithmetic of the source is that of ℕ; `capacity` is `getClusterCapacity`, and not zero.
use undergraduate_project.Shared.{
  ℕ, ◌+◌, ◌%◌, ltb, if◌then◌else◌, Text, List, [], Bool, false, Option, none, some, ◌>>=◌, length,
  ℤ, pos, failure, is_zero,
}
use undergraduate_project.External.{CacheDb, Archive, PathLib}
use undergraduate_project.Directory.Inode.{DirFields}
use undergraduate_project.File.Store.{Archives}
use undergraduate_project.File.Server.{fm_handle_csize}
use undergraduate_project.Client.Cluster.{Scratch, Cluster, path_request}
use undergraduate_project.Client.Keys.{get_file_key, get_file_stat, set_content_inode}
use undergraduate_project.Client.Transfer.{Pages, fresh_page, hash_obj, write_loop, read_loop}

module _ {kc : CacheDb} (ar : Archive DirFields) (far : Archives) (fs : PathLib)
    (capacity : ℕ) where
  -- The answer, the client with its servers, and the pages. With a block size of zero the source divides
  -- by zero; the loop then runs out of fuel: `none`.
  unfoldable pub write :
      Cluster kc → Pages → Scratch → List ℕ → Text → List ℕ → ℕ → Option (Bool × Cluster kc × Pages)
  unfolding get_file_stat write_loop
  write c pages w junk path buf off =
      let got = get_file_stat ar far fs c w path in
      let st = got.0.1 in
      let block_no : ℕ → ℕ = λ b. hash_obj st b % capacity in
      let stored = write_loop block_no st.block_size (length buf) pages (fresh_page junk) off buf in
      let named = get_file_key ar far fs got.1 w path in
      let fci = set_content_inode w.fci st in
      let end = off + length buf in
      let size = if ltb end fci.size then fci.size else end in
      let finish : Pages → Bool × Cluster kc × Pages = λ pages'. elim named.0 [
        | none ↦ (false, named.1, pages')
        | some key ↦
            let called = fm_handle_csize far fs named.1.file w.fci w.fci (path_request size key) in
            (is_zero called.0.value, record named.1 { file = called.1 }, pages')
      ] in
      if got.0.0 then (stored >>= λ pages'. some (finish pages')) else some (false, got.1, pages)

  -- The value, the bytes that the caller's buffer gets, and the client with its servers. Without a
  -- stat the value is `false`, which is 0; beyond the end of the file it is -1.
  unfoldable pub read :
      Cluster kc → Pages → Scratch → Text → ℕ → ℕ → Option (ℤ × List ℕ × Cluster kc)
  unfolding get_file_stat read_loop
  read c pages w path len off =
      let got = get_file_stat ar far fs c w path in
      let st = got.0.1 in
      let size = st.st.st_size in
      let len' = if ltb size len then size else len in
      let block_no : ℕ → ℕ = λ b. hash_obj st b % capacity in
      let loaded = read_loop block_no st.block_size len' pages off len' in
      if got.0.0
      then (if ltb size (off + len')
          then some (failure, [], got.1)
          else (loaded >>= λ bytes. some (pos (length bytes), bytes, got.1)))
      else some (pos 0, [], got.1)
