-- ===== src/Client/Coded.antt =====
-- `LocofsClient::write` and `read` as a whole, on the memories of the erasure-coded layer. The parts
-- that ask the servers are those of `Client/Files`.
use undergraduate_project.Shared.{
  ℕ, ◌+◌, ◌%◌, ltb, if◌then◌else◌, Text, List, [], Bool, false, Option, none, some, ◌>>=◌, length,
  ℤ, pos, failure, is_zero,
}
use undergraduate_project.External.{CacheDb, Archive, PathLib}
use undergraduate_project.Directory.Inode.{DirFields}
use undergraduate_project.File.Store.{Archives}
use undergraduate_project.File.Server.{fm_handle_csize}
use undergraduate_project.Ecal.Code.{IsaL, BlockBytes}
use undergraduate_project.Ecal.Blocks.{Memory}
use undergraduate_project.Client.Cluster.{Scratch, Cluster, path_request}
use undergraduate_project.Client.Keys.{get_file_key, get_file_stat, set_content_inode}
use undergraduate_project.Client.Transfer.{fresh_page, hash_obj}
use undergraduate_project.Client.Layered.{layered_write, layered_read}

module _ {kc : CacheDb} (ar : Archive DirFields) (far : Archives) (fs : PathLib) (capacity : ℕ)
    (isa : IsaL) (view : BlockBytes isa) where
  -- With the nodes that are alive and the client's own id.
  unfoldable pub coded_write :
      Cluster kc
      → (ℕ → Bool)
      → ℕ
      → Memory isa
      → Scratch
      → List ℕ
      → Text
      → List ℕ
      → ℕ
      → Option (Bool × Cluster kc × Memory isa)
  coded_write c alive my_id mem w junk path buf off =
      let got = get_file_stat ar far fs c w path in
      let st = got.0.1 in
      let block_no : ℕ → ℕ = λ b. hash_obj st b % capacity in
      let stored =
        layered_write isa view block_no st.block_size (length buf) alive my_id mem (fresh_page junk)
          off buf in
      let named = get_file_key ar far fs got.1 w path in
      let fci = set_content_inode w.fci st in
      let end = off + length buf in
      let size = if ltb end fci.size then fci.size else end in
      let finish : Memory isa → Bool × Cluster kc × Memory isa = λ mem'. elim named.0 [
        | none ↦ (false, named.1, mem')
        | some key ↦
            let called = fm_handle_csize far fs named.1.file w.fci w.fci (path_request size key) in
            (is_zero called.0.value, record named.1 { file = called.1 }, mem')
      ] in
      if got.0.0 then (stored >>= λ mem'. some (finish mem')) else some (false, got.1, mem)

  unfoldable pub coded_read :
      Cluster kc
      → (ℕ → Bool)
      → Memory isa
      → Scratch
      → Text
      → ℕ
      → ℕ
      → Option (ℤ × List ℕ × Cluster kc)
  coded_read c alive mem w path len off =
      let got = get_file_stat ar far fs c w path in
      let st = got.0.1 in
      let size = st.st.st_size in
      let len' = if ltb size len then size else len in
      let block_no : ℕ → ℕ = λ b. hash_obj st b % capacity in
      let loaded = layered_read isa view block_no st.block_size len' alive mem off len' in
      if got.0.0
      then (if ltb size (off + len')
          then some (failure, [], got.1)
          else (loaded >>= λ bytes. some (pos (length bytes), bytes, got.1)))
      else some (pos 0, [], got.1)
