-- ===== src/Nginx/AccessLog/Line.antt =====
-- internal/collectors/nginx/accesslog.go: `parseAccessLogLine`, `leadingField`, `requestTarget` and
-- `quotedReferrer`.
pub mod Entries
pub mod Bare
use prostometrics_agent.Base.{
  ℕ, ◌+◌, ◌/◌, Bool, true, false, not, ◌&&◌, ◌||◌, List, [], ◌∷◌, ◌++◌, ◌≡◌, refl, Option, none,
  some, Bytes, codes, if◌then◌else◌, ltb, ◌===◌, ◌>>=◌, take, drop, is_some, option_or,
}
use prostometrics_agent.Base.Integers.{ℤ, pos, negsuc}
use prostometrics_agent.Floats.{Floats}
use prostometrics_agent.Nginx.Entry.{AccessLogEntry}
use prostometrics_agent.Text.Number.{itoa, parse_int}
use prostometrics_agent.Text.Search.{
  after_index, index_byte, last_index_byte, has_prefix, cut, trim_of,
}
use prostometrics_agent.Text.Space.{fields, trim_space}

abbrev pub quote : ℕ
quote = 34

unfoldable pub leading_field : Bytes → Bytes
leading_field prefix = elim (fields prefix) [ [] ↦ [] | ◌∷◌ f fs ↦ f ]

abbrev second_of : List Bytes → Bytes
second_of [] = []
second_of (f ∷ []) = []
second_of (f ∷ g ∷ fs) = g

unfoldable pub request_target : Bytes → Bytes
request_target request = second_of (fields request)

unfoldable pub is_url : Bytes → Bool
is_url value =
    has_prefix value (codes "http://")
    || has_prefix value (codes "https://")
    || has_prefix value (codes "//")

-- What stands in the first pair of quotes.
unfoldable pub first_quoted : Bytes → Option Bytes
first_quoted rest = do
  open_at ← index_byte rest quote
  shut ← index_byte (drop (open_at + 1) rest) quote
  some (take shut (drop (open_at + 1) rest))

unfoldable pub quoted_referrer : Bytes → Bytes
quoted_referrer rest = elim (first_quoted rest) [
  | none ↦ []
  | some value ↦ if is_url value then value else []
]

-- `strconv.Atoi` of the first field, between 100 and 599.
abbrev pub in_range : ℤ → Option ℕ
in_range (negsuc n) = none
in_range (pos n) = if ltb n 100 || ltb 599 n then none else some n

unfoldable pub status_of : List Bytes → Option ℕ
status_of [] = none
status_of (f ∷ fs) = do v ← parse_int f; in_range v

module _ (fl : Floats) where
  open fl use {F, parse_float, is_negative}

  -- The request time and the upstream time found so far.
  abbrev pub Times : Type 0
  Times = Option F × Option F

  -- A number that is not negative.
  unfoldable pub duration : Bytes → Option F
  duration raw = do v ← parse_float raw; if is_negative v then none else some v

  -- The `switch` on the name.
  unfoldable pub assign : Bytes → F → Times → Times
  assign name v (rt, ut) =
      if name === codes "rt" || name === codes "request_time"
      then (some v, ut)
      else if name === codes "urt"
          || name === codes "upstream_response_time"
          || name === codes "uht"
      then (rt, some v)
      else (rt, ut)

  abbrev assign_parsed : Bytes → Option F → Times → Times
  assign_parsed name none t = t
  assign_parsed name (some v) t = assign name v t

  abbrev assign_pair : Option (Bytes × Bytes) → Times → Times
  assign_pair none t = t
  assign_pair (some (name, raw)) t = assign_parsed name (duration (trim_of (quote ∷ []) raw)) t

  unfoldable pub named_times : List Bytes → Times → Times
  named_times [] t = t
  named_times (f ∷ fs) t = named_times fs (assign_pair (cut f b'=') t)

  -- A bare field counts if it has a decimal point and is a duration.
  unfoldable pub bare_duration : Bytes → Option F
  bare_duration f = if is_some (index_byte f b'.') then duration f else none

  unfoldable pub bare_times : List Bytes → Times → Times
  bare_times [] t = t
  bare_times (f ∷ fs) (rt, ut) = elim (bare_duration f) [
    | none ↦ bare_times fs (rt, ut)
    | some v ↦ elim rt [
      | none ↦ bare_times fs (some v, ut)
      | some r ↦ elim ut [ none ↦ (some r, some v) | some u ↦ bare_times fs (some r, some u) ]
    ]
  ]

  unfoldable pub times_of : Bytes → Times
  times_of rest =
      let named = named_times (fields rest) (none, none) in
      let bare = bare_times (fields (after_index 1 (last_index_byte rest quote) rest)) named in
      if is_some named.0 then named else bare

  unfoldable pub entry_of : Bytes → Bytes → Bytes → ℕ → AccessLogEntry F
  entry_of prefix request rest status = record {
    status_class = itoa (status / 100) ++ codes "xx";
    status = status;
    request_time = (times_of rest).0;
    upstream_time = (times_of rest).1;
    remote_addr = leading_field prefix;
    target = request_target request;
    referrer = quoted_referrer rest;
  }

  unfoldable pub parse_access_log_line : Bytes → Option (AccessLogEntry F)
  parse_access_log_line line = do
    start ← index_byte line quote
    end_at ← index_byte (drop (start + 1) line) quote
    let rest = trim_space (drop (start + 1 + end_at + 1) line)
    status ← status_of (fields rest)
    some (entry_of (take start line) (take end_at (drop (start + 1) line)) rest status)
