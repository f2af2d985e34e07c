-- ===== src/Nginx/Status.antt =====
-- internal/collectors/nginx/collector.go: `parseStubStatus` and its helpers, and what `Collect` sends
-- of a status page that was fetched.
pub mod Keys
pub mod Printed
use prostometrics_agent.Base.{
  ℕ, Bool, true, false, ◌&&◌, ◌||◌, List, [], ◌∷◌, ◌++◌, Option, none, some, Bytes, codes,
  if◌then◌else◌, ◌===◌, is_some, option_or,
}
use prostometrics_agent.Base.Integers.{ℤ, pos, negsuc}
use prostometrics_agent.Metrics.{Reading, whole, Label, label, Emission, value, total}
use prostometrics_agent.Text.Case.{Lowering, equal_fold}
use prostometrics_agent.Text.Number as Number
use prostometrics_agent.Text.Search.{has_prefix, trim_prefix, split}
use prostometrics_agent.Text.Space.{trim_space, fields}

pub record StubStatus : Type 0 where
  pub active : ℤ
  pub accepts : ℤ
  pub handled : ℤ
  pub requests : ℤ
  pub reading : ℤ
  pub writing : ℤ
  pub waiting : ℤ

-- The status so far, and which of its lines were seen.
pub record Scan : Type 0 where
  pub status : StubStatus
  pub have_active : Bool
  pub have_totals : Bool
  pub have_states : Bool

unfoldable pub parse_int : Bytes → Option ℤ
parse_int text = Number.parse_int (trim_space text)

unfoldable pub parse_key : Bytes → List Bytes → Option ℤ
parse_key needle [] = none
parse_key needle (f ∷ []) =
    if f === needle
    then none
    else if has_prefix f needle
    then parse_int (trim_prefix f needle)
    else none
parse_key needle (f ∷ g ∷ fs) =
    let later = parse_key needle (g ∷ fs) in
    if f === needle
    then parse_int g
    else if has_prefix f needle
    then parse_int (trim_prefix f needle)
    else later

abbrev last_of : Bytes → List Bytes → Bytes
last_of f [] = f
last_of f (g ∷ fs) = last_of g fs

abbrev with_active : Option ℤ → Scan → Scan
with_active none s = s
with_active (some v) s = record s { status = record s.status { active = v }; have_active = true }

abbrev with_states : Option ℤ → Option ℤ → Option ℤ → Scan → Scan
with_states reading writing waiting s = record s {
  status = record s.status {
    reading = option_or reading s.status.reading;
    writing = option_or writing s.status.writing;
    waiting = option_or waiting s.status.waiting;
  };
  have_states = (is_some reading && is_some writing && is_some waiting) || s.have_states;
}

unfoldable pub states_line : List Bytes → Scan → Scan
states_line fs s =
    with_states (parse_key (codes "Reading:") fs) (parse_key (codes "Writing:") fs)
      (parse_key (codes "Waiting:") fs) s

abbrev totals_line : Option ℤ → Option ℤ → Option ℤ → Scan → Scan → Scan
totals_line (some a) (some h) (some r) s other = record s {
  status = record s.status { accepts = a; handled = h; requests = r };
  have_totals = true;
}
totals_line (some a) (some h) none s other = other
totals_line (some a) none r s other = other
totals_line none h r s other = other

module _ (lw : Lowering) where
  unfoldable pub scan_fields : List Bytes → Scan → Scan
  scan_fields (f0 ∷ f1 ∷ f2 ∷ fs) s =
      let active = with_active (parse_int (last_of f2 fs)) s in
      let others =
        totals_line (parse_int f0) (parse_int f1) (parse_int f2) s
          (states_line (f0 ∷ f1 ∷ f2 ∷ fs) s) in
      if equal_fold f0 (codes "active") && has_prefix (lw.lower f1) (codes "connections")
      then active
      else others
  scan_fields fs s = states_line fs s

  unfoldable pub scan_lines : List Bytes → Scan → Scan
  scan_lines [] s = s
  scan_lines (raw ∷ lines) s =
      let line = trim_space raw in
      let skip = scan_lines lines s in
      let next = scan_lines lines (scan_fields (fields line) s) in
      if line === [] then skip else next

  abbrev zero_status : StubStatus
  zero_status = record {
    active = pos 0;
    accepts = pos 0;
    handled = pos 0;
    requests = pos 0;
    reading = pos 0;
    writing = pos 0;
    waiting = pos 0;
  }

  abbrev complete : Scan → Option StubStatus
  complete s = if s.have_active && s.have_totals && s.have_states then some s.status else none

  unfoldable pub parse_stub_status : Bytes → Option StubStatus
  parse_stub_status raw = complete (
      scan_lines (split raw 10) (record {
        status = zero_status;
        have_active = false;
        have_totals = false;
        have_states = false;
      }))

abbrev connections : Bytes → ℤ → List Emission
connections state (negsuc n) = []
connections state (pos n) =
    value (codes "nginx.connections") (whole n) (label (codes "state") state ∷ []) ∷ []

abbrev totals : Bytes → ℤ → List Emission
totals typ (negsuc n) = []
totals typ (pos n) = total (codes "nginx.totals") (whole n) (label (codes "type") typ ∷ []) ∷ []

abbrev report_status : StubStatus → List Emission
report_status s =
    connections (codes "active") s.active
    ++ connections (codes "reading") s.reading
    ++ connections (codes "writing") s.writing
    ++ connections (codes "waiting") s.waiting
    ++ totals (codes "accepts") s.accepts
    ++ totals (codes "handled") s.handled
    ++ totals (codes "requests") s.requests

abbrev report_page : Option StubStatus → List Emission
report_page none = []
report_page (some s) = report_status s

-- `Collect`, with the page, or none if it could not be fetched.
unfoldable pub collect : Lowering → Option Bytes → List Emission
collect lw none = []
collect lw (some raw) = report_page (parse_stub_status lw raw)
