-- ===== src/Examples/Regions.antt =====
-- Concrete runs of `readBlock` and `writeBlock` of src/ecal.cpp through regions of the socket.
use undergraduate_project.Shared.{ℕ, ◌*◌, ◌^◌, ◌-◌, ◌≡◌, false, true, some, [], ◌∷◌, arith}
use undergraduate_project.Ecal.Blocks.{Page, write_block}
use undergraduate_project.Ecal.Transfers.{Regions, write_through}
use undergraduate_project.Ecal.Lending.{HasRoom}
use undergraduate_project.Ecal.Borrowed.{write_gives_back}
use undergraduate_project.SampleCode.{byte_code}
use undergraduate_project.Examples.Layered.{zero_memory, all_but_1}

-- The first region of every peer is lent already.
abbrev first_lent : Regions byte_code
first_lent = record { word = λ peer. 2 ^ 32 - 2; buffer = λ peer addr i k. true }

abbrev far_apart : ℕ → ℕ
far_apart peer = peer * 2 ^ 20

first_lent-HasRoom : HasRoom first_lent.word
first_lent-HasRoom peer = (omega arith, omega arith)

abbrev new_page : Page byte_code
new_page = record { page = (λ i k. true) ∷ (λ i k. false) ∷ []; index = 3 }

write_gives_back_example :
    (t : Regions byte_code) × (write_through byte_code far_apart 3 all_but_1 0 zero_memory
        first_lent new_page
      ≡ some (write_block byte_code 3 all_but_1 0 zero_memory new_page, t))
    × ((peer : ℕ) → t.word peer ≡ 2 ^ 32 - 2)
write_gives_back_example =
    write_gives_back byte_code far_apart 3 all_but_1 0 zero_memory first_lent new_page
      first_lent-HasRoom
