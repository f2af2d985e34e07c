-- ===== src/Nginx/AccessLog/Collect.antt =====
-- internal/collectors/nginx/accesslog.go: `Collect` on the lines of one tick.
pub mod Counts
use prostometrics_agent.Base.{
  ℕ, ◌+◌, ◌%◌, ◌^◌, Bool, true, false, List, [], ◌∷◌, ◌++◌, ◌≡◌, refl, Option, none, some, Bytes,
  map, if◌then◌else◌, ltb, ◌==◌, length, option_or, ◌&&◌,
}
use prostometrics_agent.Base.Maps.{lookup, insert}
use prostometrics_agent.Floats.{Floats}
use prostometrics_agent.Nginx.AccessLog.Line.{parse_access_log_line}
use prostometrics_agent.Nginx.AccessLog.Reservoir.{Reservoir, new_reservoir, offer}
use prostometrics_agent.Nginx.Entry.{AccessLogEntry}
use prostometrics_agent.Nginx.TopLists.Rows.{TopEvent, record_ranked_rows}
use prostometrics_agent.Text.Case.{Lowering}

abbrev pub max_ranked_rows_per_tick : ℕ
max_ranked_rows_per_tick = 5000

-- `rand.Rand`: `intn` gives a number below its argument and the generator that follows.
pub record Random : Type 1 where
  pub R : Type 0
  pub intn : R → ℕ → ℕ × R

pub record Options : Type 0 where
  pub max_samples : ℕ
  pub top_lists : Bool
  pub site_host : Bytes

-- The client calls in the order in which they are made. The times are in seconds here, and the
-- client gets them times 1000.
pub data Event (F : Type 0) : Type 0 where
  requests_count : Bytes → ℕ → Event F
  request_time_ms : F → Event F
  upstream_time_ms : F → Event F
  count_top : TopEvent → Event F

module _ (fl : Floats) (rnd : Random) (l : Lowering) (o : Options) where
  open fl use {F}
  open rnd use {R, intn}

  pub record Tally : Type 0 where
    pub class_counts : List (Bytes × ℕ)
    pub request_times : Reservoir F
    pub upstream_times : Reservoir F
    pub ranked : List (AccessLogEntry F)
    pub rand : R

  -- `offer`, which draws only where the reservoir is full.
  unfoldable pub offer_drawn : Option F → Reservoir F → R → Reservoir F × R
  offer_drawn none s r = (s, r)
  offer_drawn (some v) s r =
      let (idx, r') = intn r (s.offered + 1) in
      if ltb (length s.samples) s.limit then (offer s 0 v, r) else (offer s idx v, r')

  -- `classCounts[class]++` on a uint64.
  unfoldable pub bump : Bytes → List (Bytes × ℕ) → List (Bytes × ℕ)
  bump class counts = insert class ((option_or (lookup class counts) 0 + 1) % 2 ^ 64) counts

  unfoldable pub keep_ranked : AccessLogEntry F → List (AccessLogEntry F) → List (AccessLogEntry F)
  keep_ranked e ranked =
      if o.top_lists && ltb (length ranked) max_ranked_rows_per_tick
      then ranked ++ e ∷ []
      else ranked

  unfoldable pub tally_entry : AccessLogEntry F → Tally → Tally
  tally_entry e t =
      let (rt, r1) = offer_drawn e.request_time t.request_times t.rand in
      let (ut, r2) = offer_drawn e.upstream_time t.upstream_times r1 in
      record {
        class_counts = bump e.status_class t.class_counts;
        request_times = rt;
        upstream_times = ut;
        ranked = keep_ranked e t.ranked;
        rand = r2;
      }

  abbrev tally_parsed : Option (AccessLogEntry F) → Tally → Tally
  tally_parsed none t = t
  tally_parsed (some e) t = tally_entry e t

  unfoldable pub tally_lines : List Bytes → Tally → Tally
  tally_lines [] t = t
  tally_lines (line ∷ lines) t = tally_lines lines (tally_parsed (parse_access_log_line fl line) t)

  unfoldable pub new_tally : R → Tally
  new_tally r = record {
    class_counts = [];
    request_times = new_reservoir o.max_samples;
    upstream_times = new_reservoir o.max_samples;
    ranked = [];
    rand = r;
  }

  unfoldable pub count_events : List (Bytes × ℕ) → List (Event F)
  count_events [] = []
  count_events ((class, delta) ∷ counts) =
      if delta == 0 then count_events counts else requests_count class delta ∷ count_events counts

  unfoldable pub ranked_events : List (AccessLogEntry F) → List (Event F)
  ranked_events [] = []
  ranked_events (e ∷ ranked) =
      map count_top (record_ranked_rows l o.site_host e) ++ ranked_events ranked

  -- The counts and times come before the ranked rows.
  unfoldable pub collect_lines : List Bytes → R → List (Event F) × R
  collect_lines lines r =
      let t = tally_lines lines (new_tally r) in
      (
        count_events t.class_counts
            ++ (map request_time_ms t.request_times.samples
                ++ (map upstream_time_ms t.upstream_times.samples ++ ranked_events t.ranked)),
        t.rand,
      )
