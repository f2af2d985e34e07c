-- ===== src/Systemd.antt =====
-- internal/collectors/systemd/collector.go: `listUnits` and `Collect`. What systemctl prints is given.
pub mod Recovered
use prostometrics_agent.Base.{
  ℕ, zero, suc, ◌+◌, Bool, true, false, not, ◌||◌, List, [], ◌∷◌, ◌++◌, Option, none, some, Bytes,
  codes, if◌then◌else◌, ◌===◌, take, length, map, elem_bytes,
}
use prostometrics_agent.Metrics.{Reading, whole, Label, label, Emission, value_sparse}
use prostometrics_agent.Text.Search.{has_prefix, split}
use prostometrics_agent.Text.Space.{trim_space, fields}

abbrev pub max_named_failed_units : ℕ
max_named_failed_units = 20

-- The bullet U+25CF.
abbrev bullet : Bytes
bullet = 0xE2 ∷ 0x97 ∷ 0x8F ∷ []

abbrev unit_name : Bytes → List Bytes
unit_name name = if (name === []) || has_prefix name bullet then [] else name ∷ []

abbrev unit_line : List Bytes → List Bytes
unit_line [] = []
unit_line (f ∷ fs) = unit_name (trim_space f)

unfoldable pub units_of : List Bytes → List Bytes
units_of [] = []
units_of (line ∷ lines) = unit_line (fields line) ++ units_of lines

-- What systemctl prints, or none if it fails.
unfoldable pub list_units : Option Bytes → Option (List Bytes)
list_units none = none
list_units (some out) = some (units_of (split (trim_space out) 10))

abbrev pub unit_failed : ℕ → Bytes → Emission
unit_failed n unit =
    value_sparse (codes "systemd.unit_failed") (whole n) (label (codes "unit") unit ∷ [])

abbrev units_count : Bytes → ℕ → Emission
units_count state n =
    value_sparse (codes "systemd.units_count") (whole n) (label (codes "state") state ∷ [])

abbrev loaded_count : Option (List Bytes) → List Emission
loaded_count none = []
loaded_count (some loaded) = units_count (codes "loaded") (length loaded) ∷ []

-- The keys of a map that the names are put into.
unfoldable pub key_set : List Bytes → List Bytes
key_set [] = []
key_set (unit ∷ us) = let rest = key_set us in if elem_bytes unit us then rest else unit ∷ rest

-- The units of a map that are not among those of another.
unfoldable pub recovered : List Bytes → List Bytes → List Bytes
recovered current [] = []
recovered current (unit ∷ last) =
    let rest = recovered current last in if elem_bytes unit current then rest else unit ∷ rest

abbrev pub collect_failed :
    List Bytes → Option (List Bytes) → List Bytes → List Emission × List Bytes
collect_failed failed loaded last =
    let named = take max_named_failed_units failed in
    (
      (units_count (codes "failed") (length failed) ∷ loaded_count loaded)
          ++ map (unit_failed 1) named
          ++ map (unit_failed 0) (recovered (key_set named) last),
      key_set named,
    )

abbrev pub collect_listed :
    Option (List Bytes) → Option (List Bytes) → List Bytes → List Emission × List Bytes
collect_listed none loaded last = ([], last)
collect_listed (some failed) loaded last = collect_failed failed loaded last

-- `Collect`, with what is printed of the failed and of the loaded units, and the units that were
-- reported as failed before.
unfoldable pub collect : Option Bytes → Option Bytes → List Bytes → List Emission × List Bytes
collect failed loaded last = collect_listed (list_units failed) (list_units loaded) last
