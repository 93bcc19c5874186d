-- ===== src/Chaos/Config.antt =====
-- services/chaos-controller/app/config.py: the settings that are lists in one text.
use microservices_project.Prelude.{Option, none, some, List, [], ◌∷◌, map, if◌then◌else◌, nat_eq}
use microservices_project.Prelude.Text.{
  Text, text_eq, split, strip, partition, is_filled, comma_fields,
}
use microservices_project.Prelude.Decimal.{ℤ, pos, int_of}

unfoldable pub allowed_origins_list : Text → List Text
allowed_origins_list allowed_origins = comma_fields allowed_origins

-- A target, which `entry.split(":", 1)` takes apart, or nothing where `int` raises.
abbrev pub probe_target : Text → Option (Text × ℤ)
probe_target entry = elim (partition 58 entry) [
  | none ↦ some (entry, pos 80)
  | some (host, port) ↦ elim (int_of port) [ none ↦ none | some n ↦ some (strip host, n) ]
]

abbrev pub probe_entries : List Text → Option (List (Text × ℤ))
probe_entries [] = some []
probe_entries (entry ∷ entries) =
    let rest = probe_entries entries in
    if is_filled entry
    then elim (probe_target entry) [
      | none ↦ none
      | some target ↦ elim rest [ none ↦ none | some targets ↦ some (target ∷ targets) ]
    ]
    else rest

unfoldable pub probe_targets_list : Text → Option (List (Text × ℤ))
probe_targets_list probe_targets = probe_entries (map strip (split 44 probe_targets))
