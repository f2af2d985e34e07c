-- ===== src/Nginx/AccessLog/Line/Entries.antt =====
-- What an accepted line yields.
use prostometrics_agent.Base.{
  some_inj, ◌===◌, ℕ, ◌+◌, ◌/◌, ◌≤◌, false, ◌||◌, List, [], ◌∷◌, ◌++◌, ◌≡◌, inl, inr, Option, none,
  some, Bytes, codes, arith, ◌>>=◌, drop, is_some, Bool-cases, Option-cases, subst,
}
use prostometrics_agent.Base.Integers.{pos, negsuc}
use prostometrics_agent.Floats.{Floats}
use prostometrics_agent.Nginx.AccessLog.Line.{
  quote, status_of, in_range, Times, duration, assign, assign_parsed, assign_pair, named_times,
  bare_duration, bare_times, times_of, entry_of, parse_access_log_line,
}
use prostometrics_agent.Nginx.Entry.{AccessLogEntry}
use prostometrics_agent.Text.Number.{itoa, digits, parse_int}
use prostometrics_agent.Text.Search.{after_index, index_byte, last_index_byte, cut}
use prostometrics_agent.Text.Space.{fields, trim_space}

in_range_lem : (m n : ℕ) → in_range (pos m) ≡ some n → (100 ≤ n) × (n ≤ 599)
in_range_lem m n h = (ground arith, ground arith)

status_of-range : (fs : List Bytes) (n : ℕ) → status_of fs ≡ some n → (100 ≤ n) × (n ≤ 599)
unfolding status_of
status_of-range [] n h = cc
status_of-range (f ∷ fs) n h = elim (Option-cases (parse_int f)) [
  | inl e ↦ cc (rw (e, status_of) at h)
  | inr (pos m, e) ↦ in_range_lem m n (rw (e, status_of) at h)
  | inr (negsuc m, e) ↦ cc (rw (e, status_of) at h)
]

-- One decimal digit and "xx".
class_lem :
    (n : ℕ) → 100 ≤ n → n ≤ 599 → itoa (n / 100) ++ codes "xx" ≡ (b'0' + n / 100) ∷ codes "xx"
unfolding itoa digits
class_lem n lo hi = ground arith

module _ (fl : Floats) where
  open fl use {F, parse_float, is_negative}

  -- No time, or one that is not negative.
  abbrev pub Fine : Option F → Type 0
  Fine none = Unit
  Fine (some v) = is_negative v ≡ false

  abbrev FineBoth : Times fl → Type 0
  FineBoth (rt, ut) = Fine rt × Fine ut

  duration-Fine : (raw : Bytes) → Fine (duration fl raw)
  unfolding duration
  duration-Fine raw = elim (Option-cases (parse_float raw)) [
    | inl e ↦ rw (e, ◌>>=◌) tt
    | inr (v, e) ↦ elim (Bool-cases (is_negative v)) [
      | inl k ↦ rw (e, ◌>>=◌, k) tt
      | inr k ↦ rw (e, ◌>>=◌, k) k
    ]
  ]

  bare_duration-Fine : (raw : Bytes) → Fine (bare_duration fl raw)
  unfolding bare_duration
  bare_duration-Fine raw = elim (Bool-cases (is_some (index_byte raw b'.'))) [
    | inl k ↦ rw k (duration-Fine raw)
    | inr k ↦ rw k tt
  ]

  -- One round of the loop over the bare fields.
  abbrev put : F → Times fl → List Bytes → Times fl
  put v (none, ut) fs = bare_times fl fs (some v, ut)
  put v (some r, none) fs = (some r, some v)
  put v (some r, some u) fs = bare_times fl fs (some r, some u)

  pub bare_skip :
      (f : Bytes) (fs : List Bytes) (t : Times fl)
      → bare_duration fl f ≡ none
      → bare_times fl (f ∷ fs) t ≡ bare_times fl fs t
  unfolding bare_times
  bare_skip f fs (rt, ut) e = rw (e, bare_times)

  pub bare_take :
      (f : Bytes) (fs : List Bytes) (v : F) (t : Times fl)
      → bare_duration fl f ≡ some v
      → bare_times fl (f ∷ fs) t ≡ put v t fs
  unfolding bare_times
  bare_take f fs v (none, ut) e = rw (e, bare_times)
  bare_take f fs v (some r, none) e = rw (e, bare_times)
  bare_take f fs v (some r, some u) e = rw (e, bare_times)

  put-Fine :
      (v : F) (rt ut : Option F) (fs : List Bytes)
      → Fine (some v)
      → FineBoth (rt, ut)
      → FineBoth (bare_times fl fs (some v, ut))
      → FineBoth (bare_times fl fs (rt, ut))
      → FineBoth (put v (rt, ut) fs)
  put-Fine v none ut fs hv ht a b = a
  put-Fine v (some r) none fs hv ht a b = (ht.0, hv)
  put-Fine v (some r) (some u) fs hv ht a b = b

  assign-Fine :
      (name : Bytes) (v : F) (t : Times fl)
      → Fine (some v)
      → FineBoth t
      → FineBoth (assign fl name v t)
  unfolding assign
  assign-Fine name v (rt, ut) hv (hr, hu) =
      elim (Bool-cases (name === codes "rt" || name === codes "request_time")) [
        | inl e ↦ rw e (hv, hu)
        | inr e ↦
            elim (Bool-cases (
              name === codes "urt"
              || name === codes "upstream_response_time"
              || name === codes "uht")) [ inl k ↦ rw (e, k) (hr, hv) | inr k ↦ rw (e, k) (hr, hu) ]
      ]

  assign_parsed-Fine :
      (name : Bytes) (o : Option F) (t : Times fl)
      → Fine o
      → FineBoth t
      → FineBoth (assign_parsed fl name o t)
  assign_parsed-Fine name none t ho ht = ht
  assign_parsed-Fine name (some v) t ho ht = assign-Fine name v t ho ht

  assign_pair-Fine :
      (o : Option (Bytes × Bytes)) (t : Times fl) → FineBoth t → FineBoth (assign_pair fl o t)
  assign_pair-Fine none t ht = ht
  assign_pair-Fine (some (name, raw)) t ht = assign_parsed-Fine name _ t (duration-Fine _) ht

  named_times-Fine : (fs : List Bytes) (t : Times fl) → FineBoth t → FineBoth (named_times fl fs t)
  unfolding named_times
  named_times-Fine [] t ht = ht
  named_times-Fine (f ∷ fs) t ht =
      named_times-Fine fs (assign_pair fl (cut f b'=') t) (assign_pair-Fine (cut f b'=') t ht)

  bare_times-Fine : (fs : List Bytes) (t : Times fl) → FineBoth t → FineBoth (bare_times fl fs t)
  bare_times-Fine [] t ht = unfold bare_times in ht
  bare_times-Fine (f ∷ fs) (rt, ut) ht = elim (Option-cases (bare_duration fl f)) [
    | inl e ↦ rw (bare_skip f fs (rt, ut) e) (bare_times-Fine fs (rt, ut) ht)
    | inr (v, e) ↦
        let hv : Fine (some v) = rw e at (bare_duration-Fine f) in
        rw (bare_take f fs v (rt, ut) e) (
          put-Fine v rt ut fs hv ht (bare_times-Fine fs (some v, ut) (hv, ht.1))
            (bare_times-Fine fs (rt, ut) ht))
  ]

  times_of-Fine : (rest : Bytes) → FineBoth (times_of fl rest)
  unfolding times_of
  times_of-Fine rest =
      let named = named_times fl (fields rest) (none, none) in
      let hn = named_times-Fine (fields rest) (none, none) (tt, tt) in
      elim (Bool-cases (is_some named.0)) [
        | inl e ↦ rw e hn
        | inr e ↦
            rw e
              (bare_times-Fine (fields (after_index 1 (last_index_byte rest quote) rest)) named hn)
      ]

  pub record IsEntry (e : AccessLogEntry F) : Type 0 where
    pub in_range : (100 ≤ e.status) × (e.status ≤ 599)
    pub class : e.status_class ≡ (b'0' + e.status / 100) ∷ codes "xx"
    pub request_fine : Fine e.request_time
    pub upstream_fine : Fine e.upstream_time

  entry_of-IsEntry :
      (prefix request rest : Bytes) (status : ℕ)
      → (100 ≤ status) × (status ≤ 599)
      → IsEntry (entry_of fl prefix request rest status)
  unfolding entry_of
  entry_of-IsEntry prefix request rest status r = record {
    in_range = r;
    class = class_lem status r.0 r.1;
    request_fine = (times_of-Fine rest).0;
    upstream_fine = (times_of-Fine rest).1;
  }

  -- An accepted line has a status from 100 to 599, whose class is its first digit and "xx", and no
  -- negative time.
  pub parse_access_log_line_lem :
      (line : Bytes) (e : AccessLogEntry F) → parse_access_log_line fl line ≡ some e → IsEntry e
  unfolding parse_access_log_line
  parse_access_log_line_lem line e h = elim (Option-cases (index_byte line quote)) [
    | inl k ↦ cc (rw (k, ◌>>=◌) at h)
    | inr (start, k) ↦ elim (Option-cases (index_byte (drop (start + 1) line) quote)) [
      | inl k' ↦ cc (rw (k, ◌>>=◌, k') at h)
      | inr (end_at, k') ↦
          let rest = trim_space (drop (start + 1 + end_at + 1) line) in
          elim (Option-cases (status_of (fields rest))) [
            | inl s ↦ cc (rw (k, ◌>>=◌, k', s) at h)
            | inr (status, s) ↦
                subst IsEntry (some_inj (rw (k, ◌>>=◌, k', s) at h))
                  (entry_of-IsEntry _ _ rest status (status_of-range (fields rest) status s))
          ]
    ]
  ]
