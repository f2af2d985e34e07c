-- ===== src/Nginx/AccessLog/Collect/Counts.antt =====
-- What one tick reports of its lines.
use prostometrics_agent.Base.{
  ℕ, ◌+◌, List, [], ◌∷◌, none, some, Bytes, if◌then◌else◌, option_or, ◌===◌,
}
use prostometrics_agent.Base.Maps.{lookup}
use prostometrics_agent.Floats.{Floats}
use prostometrics_agent.Nginx.AccessLog.Collect.{Random, Options, Tally, tally_entry}
use prostometrics_agent.Nginx.AccessLog.Line.{parse_access_log_line}
use prostometrics_agent.Nginx.Entry.{AccessLogEntry}
use prostometrics_agent.Text.Case.{Lowering}

module _ (fl : Floats) where
  -- The entries of the lines that are accepted, in order.
  abbrev pub entries : List Bytes → List (AccessLogEntry fl.F)
  entries [] = []
  entries (line ∷ lines) = elim (parse_access_log_line fl line) [
    | none ↦ entries lines
    | some e ↦ e ∷ entries lines
  ]

  -- How many entries are of a class.
  abbrev pub of_class : Bytes → List (AccessLogEntry fl.F) → ℕ
  of_class class [] = 0
  of_class class (e ∷ es) = (if e.status_class === class then 1 else 0) + of_class class es

module _ (fl : Floats) (rnd : Random) (l : Lowering) (o : Options) where
  abbrev T : Type 0
  T = Tally fl rnd l o

  tally_entries : List (AccessLogEntry fl.F) → T → T
  tally_entries [] t = t
  tally_entries (e ∷ es) t = tally_entries es (tally_entry fl rnd l o e t)

  count_at : Bytes → T → ℕ
  count_at class t = option_or (lookup class t.class_counts) 0
