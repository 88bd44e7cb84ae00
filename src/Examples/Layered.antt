-- ===== src/Examples/Layered.antt =====
-- A concrete write and read of a file on the erasure-coded layer, with bytes and their parity, and a node that is
-- lost in between.
use undergraduate_project.Shared.{ℕ, Bool, true, false, not, ◌==◌}
use undergraduate_project.Ecal.Blocks.{Memory}
use undergraduate_project.Ecal.Refinement.{Array}
use undergraduate_project.Client.Cluster.{Cluster}
use undergraduate_project.SampleCode.{byte_code}

abbrev pub zero_memory : Memory byte_code
zero_memory n s i k = false

abbrev zero_pages : Array byte_code
zero_pages j = (λ i k. false, λ i k. false)

abbrev everyone : ℕ → Bool
everyone n = true

abbrev pub all_but_1 : ℕ → Bool
all_but_1 n = not (n == 1)
