-- ===== src/Netif/Memory.antt =====
-- `memReadHandler` and `memWriteHandler`. The memory is a byte at each address, and `base` is where that of
-- the node starts; an address wraps around at 64 bits, and a range that is copied runs on from there.
use undergraduate_project.Shared.{
  ℕ, zero, suc, ◌+◌, ◌%◌, ◌^◌, ◌≤◌, ◌<◌, ◌≡◌, refl, sym, ap, ◌∙◌, ◌⊎◌, inl, inr, arith, Text, pos,
  [], ◌∷◌, length, update,
}
use undergraduate_project.Messages.{PureValueRequest, PureValueResponse}

abbrev pub Bytes : Type 0
Bytes = ℕ → ℕ

-- The size of the member of `MemRequest` and of `MemResponse`.
abbrev pub mem_size : ℕ
mem_size = 2048

pub record MemRequest : Type 0 where
  pub addr : ℕ
  pub bytes : Text

unfoldable pub place : ℕ → ℕ → ℕ
place base addr = (base + addr) % 2 ^ 64

unfoldable pub copy_out : Bytes → ℕ → ℕ → Text
copy_out m a zero = []
copy_out m a (suc n) = m a ∷ copy_out m (suc a) n

unfoldable pub copy_in : Bytes → ℕ → Text → Bytes
copy_in m a [] = m
copy_in m a (b ∷ bs) = copy_in (update m a b) (suc a) bs

unfoldable pub mem_read_handler : ℕ → Bytes → PureValueRequest → Text
mem_read_handler base m req = copy_out m (place base req.value) mem_size

unfoldable pub mem_write_handler : ℕ → Bytes → MemRequest → Bytes × PureValueResponse
mem_write_handler base m req =
    (copy_in m (place base req.addr) req.bytes, record { value = pos mem_size })

copy_in_before : (m : Bytes) (a : ℕ) (bs : Text) (x : ℕ) → x < a → copy_in m a bs x ≡ m x
unfolding copy_in
copy_in_before m a [] x h = refl
copy_in_before m a (b ∷ bs) x h =
    copy_in_before (update m a b) (suc a) bs x (omega arith) ∙ ground arith

copy_in_after : (m : Bytes) (a : ℕ) (bs : Text) (x : ℕ) → a + length bs ≤ x → copy_in m a bs x ≡ m x
unfolding copy_in
copy_in_after m a [] x h = refl
copy_in_after m a (b ∷ bs) x h =
    copy_in_after (update m a b) (suc a) bs x (omega arith) ∙ ground arith

copy_out-copy_in : (m : Bytes) (a : ℕ) (bs : Text) → copy_out (copy_in m a bs) a (length bs) ≡ bs
unfolding copy_out copy_in
copy_out-copy_in m a [] = refl
copy_out-copy_in m a (b ∷ bs) =
    ground (
      arith,
      copy_in_before (update m a b) (suc a) bs a,
      copy_out-copy_in (update m a b) (suc a) bs,
    )

copy_out_same :
    (m m' : Bytes) (a n : ℕ)
    → ((x : ℕ) → a ≤ x → x < a + n → m x ≡ m' x)
    → copy_out m a n ≡ copy_out m' a n
unfolding copy_out
copy_out_same m m' a zero h = refl
copy_out_same m m' a (suc n) h = ground (
  arith,
  h a (omega arith) (omega arith),
  copy_out_same m m' (suc a) n (λ x lo hi. h x (omega arith) (omega arith)),
)

-- After a write of a whole buffer, a read at its address gives the bytes that were written, and a read of
-- a range that shares no address with it gives what it gave before.
pub mem_read_after_write :
    (base : ℕ) (m : Bytes) (w : MemRequest) (r : PureValueRequest)
    → length w.bytes ≡ mem_size
    → (r.value ≡ w.addr → mem_read_handler base (mem_write_handler base m w).0 r ≡ w.bytes)
      × ((place base r.value + mem_size ≤ place base w.addr)
            ⊎ (place base w.addr + mem_size ≤ place base r.value)
          → mem_read_handler base (mem_write_handler base m w).0 r ≡ mem_read_handler base m r)
unfolding mem_read_handler mem_write_handler
mem_read_after_write base m w r whole =
    let written : Bytes = copy_in m (place base w.addr) w.bytes in
    (
      λ same.
          ap (λ a. copy_out written (place base a) mem_size) same
          ∙ ap (copy_out written (place base w.addr)) (sym whole)
          ∙ copy_out-copy_in m (place base w.addr) w.bytes,
      λ aside. copy_out_same _ m (place base r.value) mem_size (λ x lo hi. elim aside [
        | inl under ↦ copy_in_before m (place base w.addr) w.bytes x (omega arith)
        | inr over ↦ copy_in_after m (place base w.addr) w.bytes x (omega (arith, whole))
      ]),
    )
