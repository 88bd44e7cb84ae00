-- ===== src/Client/Transfer.antt =====
-- `LocofsClient::write` and `read`: the blocks of a file, one after another. The pages of the cluster
-- are a function from the number of a page to its bytes, which ECAL keeps; a page of the client is
-- the bytes it read or filled last and the number that `readBlock` gave it.
use Prim.Native.Nat.{bit_xor}
use undergraduate_project.Shared.{
  ℕ, zero, suc, ◌+◌, ◌-◌, ◌*◌, ◌/◌, ◌%◌, ◌^◌, ltb, ◌==◌, if◌then◌else◌, not, ◌||◌, Option, none,
  some, List, [], ◌∷◌, ◌++◌, take, drop, length,
}
use undergraduate_project.Messages.{LocoFileStat}

abbrev pub page_size : ℕ
page_size = 4096

abbrev pub Pages : Type 0
Pages = ℕ → List ℕ

pub record ClientPage : Type 0 where
  pub content : List ℕ
  pub index : ℕ

-- `ECAL::Page page;`: the bytes are indeterminate, the number is 0.
abbrev pub fresh_page : List ℕ → ClientPage
fresh_page junk = record { content = junk; index = 0 }

abbrev pub multiplier : ℕ
multiplier = 2654435761

-- `ret << n` on a `uint64_t`.
unfoldable pub shift_left : ℕ → ℕ → ℕ
shift_left ret n = (ret * 2 ^ n) % 2 ^ 64

abbrev pub mixed : ℕ → ℕ → ℕ → ℕ
mixed ret value n =
    let ret' = bit_xor ret ((value * multiplier) % 2 ^ 64) in bit_xor (shift_left ret' n) ret'

-- The conversion of a block number to `int`, and of that to `uint64_t`.
abbrev pub int_bits : ℕ → ℕ
int_bits n = let low = n % 2 ^ 32 in if ltb low (2 ^ 31) then low else 2 ^ 64 - 2 ^ 32 + low

unfoldable pub hash_obj : LocoFileStat → ℕ → ℕ
unfolding shift_left
hash_obj st blkid = mixed (mixed (mixed 0 st.sid 32) st.suuid 27) (int_bits blkid) 37

-- `memcpy(dst + at, src, length src)`.
unfoldable pub memcpy : List ℕ → ℕ → List ℕ → List ℕ
memcpy dst at src = take at dst ++ (src ++ drop (at + length src) dst)

unfoldable pub read_block : Pages → ℕ → ClientPage
read_block pages blkno = record { content = pages blkno; index = blkno }

unfoldable pub write_block : Pages → ClientPage → Pages
write_block pages page j = if page.index == j then page.content else pages j

-- The length of the part of the block at `offset` that is transferred.
unfoldable pub block_len : ℕ → ℕ → ℕ → ℕ
block_len block_size offset len =
    let left = block_size - offset % block_size in if ltb left len then left else len

module _ (block_no : ℕ → ℕ) (block_size : ℕ) where
  -- One turn of the loop of `write`, on the bytes of the buffer that are left. It is meant for block sizes up to a
  -- page, as `create` stores them: with a larger one the source writes beyond the end of the page.
  unfoldable pub write_turn : Pages → ClientPage → ℕ → List ℕ → Pages × ClientPage
  write_turn pages page offset buf =
      let block_off = offset % block_size in
      let count = block_len block_size offset (length buf) in
      let blkno = block_no (offset / block_size) in
      let old = read_block pages blkno in
      let partly = record old { content = memcpy old.content block_off (take count buf) } in
      let wholly = record page { content = memcpy page.content 0 (take count buf) } in
      let filled =
        if not (block_off == 0) || ltb (block_off + count) page_size then partly else wholly in
      (write_block pages filled, filled)

  -- The loop, on fuel: `length buf` turns are enough.
  unfoldable pub write_loop : ℕ → Pages → ClientPage → ℕ → List ℕ → Option Pages
  write_loop fuel pages page offset [] = some pages
  write_loop zero pages page offset (b ∷ buf) = none
  write_loop (suc fuel) pages page offset (b ∷ buf) =
      let count = block_len block_size offset (length (b ∷ buf)) in
      let done = write_turn pages page offset (b ∷ buf) in
      write_loop fuel done.0 done.1 (offset + count) (drop count (b ∷ buf))

  -- The loop of `read`, on fuel: `len` turns are enough.
  unfoldable pub read_loop : ℕ → Pages → ℕ → ℕ → Option (List ℕ)
  read_loop fuel pages offset zero = some []
  read_loop zero pages offset (suc len) = none
  read_loop (suc fuel) pages offset (suc len) =
      let count = block_len block_size offset (suc len) in
      let page = read_block pages (block_no (offset / block_size)) in
      let rest = read_loop fuel pages (offset + count) (suc len - count) in
      elim rest [
        | none ↦ none
        | some bytes ↦ some (take count (drop (offset % block_size) page.content) ++ bytes)
      ]
