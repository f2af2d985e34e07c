-- ===== src/Exec/Run.antt =====
-- internal/collectors/exec/collector.go: `parseOutputLine`, `runCommand` and `Collect`. The context,
-- and what a command prints, are given.
pub mod Outcome
use prostometrics_agent.Base.{
  ℕ, ◌+◌, Bool, true, false, ◌&&◌, ◌||◌, List, [], ◌∷◌, ◌++◌, ◌≡◌, refl, Option, none, some, Bytes,
  codes, map, if◌then◌else◌, ◌===◌, ltb, leb, length, is_some, ◌==◌,
}
use prostometrics_agent.Exec.{Command, max_output_bytes, max_lines_per_command}
use prostometrics_agent.Exec.Labels.{merge_labels}
use prostometrics_agent.Floats.{Floats}
use prostometrics_agent.Text.Case.{lower_byte}
use prostometrics_agent.Text.Search.{cut, index_any, split, trim_of}
use prostometrics_agent.Text.Space.{fields, trim_space}

-- What `cmd.Run` leads to: an exit with an error, or the bytes of the standard output.
pub data Exit : Type 0 where
  failed : Exit
  printed : Bytes → Exit

pub data RunError : Type 0 where
  command_failed output_too_large stopped_after_lines negative_value no_number : RunError

abbrev pub has_bad_byte : Bytes → Bool
has_bad_byte value = is_some (index_any value (codes "|\r\n"))

abbrev label_value : Bytes → Bytes → List Bytes
label_value name value =
    if (value === []) || has_bad_byte value then [] else (name ++ b'=' ∷ value) ∷ []

abbrev label_pair : Option (Bytes × Bytes) → List Bytes
label_pair none = []
label_pair (some (raw_name, raw)) =
    let name = trim_space raw_name in
    if (name === []) || (name === codes "workload")
    then []
    else label_value name (trim_of (codes "\"'") (trim_space raw))

unfoldable pub labels_of : List Bytes → List Bytes
labels_of [] = []
labels_of (field ∷ fs) = label_pair (cut field b'=') ++ labels_of fs

-- The folding of no byte outside ASCII is one of these letters.
unfoldable pub is_counter : Bytes → Bool
is_counter kind = map lower_byte kind === codes "counter"

module _ (fl : Floats) where
  open fl use {F, parse_float, is_negative}

  -- `prostometrics.Count` or `ValueSparse`, with the metric, the value and the labels.
  pub data Published : Type 0 where
    count : Bytes → F → List Bytes → Published
    value_sparse : Bytes → F → List Bytes → Published

  unfoldable pub parse_fields : List Bytes → Option (F × List Bytes)
  parse_fields [] = none
  parse_fields (f ∷ fs) = elim (parse_float f) [ none ↦ none | some v ↦ some (v, labels_of fs) ]

  unfoldable pub parse_output_line : Bytes → Option (F × List Bytes)
  parse_output_line line = parse_fields (fields line)

  unfoldable pub publish : Command → F → List Bytes → Published
  publish c v labels =
      let all = merge_labels c.labels labels in
      if is_counter c.kind then count c.metric v all else value_sparse c.metric v all

  -- The loop over the lines, with the number published so far. A line that is empty is passed over.
  unfoldable pub run_lines : Command → ℕ → List Bytes → List Published × Option RunError
  run_lines c published [] = ([], if published == 0 then some no_number else none)
  run_lines c published (raw ∷ lines) =
      let line = trim_space raw in
      let rest = run_lines c published lines in
      elim (line === []) [
        | true ↦ rest
        | false ↦ elim (leb max_lines_per_command published) [
          | true ↦ ([], some stopped_after_lines)
          | false ↦ elim (parse_output_line line) [
            | none ↦ rest
            | some (v, labels) ↦ elim (is_negative v) [
              | true ↦ ([], some negative_value)
              | false ↦
                  let later = run_lines c (published + 1) lines in
                  (publish c v labels ∷ later.0, later.1)
            ]
          ]
        ]
      ]

  unfoldable pub run_command : Command → Exit → List Published × Option RunError
  run_command c failed = ([], some command_failed)
  run_command c (printed stdout) =
      if ltb max_output_bytes (length stdout)
      then ([], some output_too_large)
      else run_lines c 0 (split (trim_space stdout) 10)

  -- Each command with whether the context is done before it. An error is logged and passed over.
  unfoldable pub collect : List (Command × Bool × Exit) → List Published
  collect [] = []
  collect ((c, done, exit) ∷ rest) = if done then [] else (run_command c exit).0 ++ collect rest
