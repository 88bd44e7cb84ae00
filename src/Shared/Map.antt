-- ===== src/Shared/Map.antt =====
-- Finite maps keyed by texts, as functions: `std::unordered_map<std::string, …>`.
use mathlib.Core.Option.{Option, some}
use undergraduate_project.Shared.Tests.{if◌then◌else◌}
use undergraduate_project.Shared.Strings.{Text, text_eq}

abbrev pub TextMap {ℓ} : Type ℓ → Type ℓ
TextMap V = Text → Option V

abbrev pub assign {ℓ} : {V : Type ℓ} → TextMap V → Text → V → TextMap V
assign m k v j = if text_eq k j then some v else m j
