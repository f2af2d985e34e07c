-- ===== src/Nginx/Status/Printed.antt =====
-- A status page in nginx's form is read back as it was printed.
use prostometrics_agent.Base.{
  ℕ, ◌^◌, ◌<◌, true, false, List, [], ◌∷◌, none, some, Bytes, codes, ◌≡◌, refl, ap, ◌∙◌, arith, All,
  Lacks, ◌===◌,
}
use prostometrics_agent.Base.Integers.{pos}
use prostometrics_agent.Nginx.Status.{
  StubStatus, Scan, parse_int, parse_key, states_line, scan_fields, scan_lines, parse_stub_status,
  zero_status,
}
use prostometrics_agent.Nginx.Status.Keys.{
  number-IsWord, parse_int-number, digits-fold, states_words, reading-found, writing-found,
  waiting-found,
}
use prostometrics_agent.Text.Case.{IsAscii, Lowering, equal_fold, lower_byte}
use prostometrics_agent.Text.Number.{itoa}
use prostometrics_agent.Text.Number as Number
use prostometrics_agent.Text.Number.Inverse.{itoa-digits}
use prostometrics_agent.Text.Search.{has_prefix, join}
use prostometrics_agent.Text.Search.Appended.{split-join}
use prostometrics_agent.Text.Space.{is_ascii_space, trim_space}
use prostometrics_agent.Text.Space.Words.{
  IsWord, all_solid, is_word_lem, join-not_empty, fields-join, trim_space-join, join-Lacks,
}

module _ (lw : Lowering) where
  connections-IsAscii : IsAscii (codes "connections:")
  connections-IsAscii = (
    omega arith,
    (
      omega arith,
      (
        omega arith,
        (
          omega arith,
          (
            omega arith,
            (
              omega arith,
              (
                omega arith,
                (omega arith, (omega arith, (omega arith, (omega arith, (omega arith, tt))))),
              ),
            ),
          ),
        ),
      ),
    ),
  )

  abbrev active_words : ℕ → List Bytes
  active_words a = codes "Active" ∷ codes "connections:" ∷ itoa a ∷ []

  scan_active :
      (a : ℕ) (s : Scan)
      → a < 2 ^ 63
      → scan_fields lw (active_words a) s
        ≡ record s { status = record s.status { active = pos a }; have_active = true }
  unfolding scan_fields equal_fold lower_byte ◌===◌ has_prefix
  scan_active a s h =
      rw (lw.lower_ascii (codes "connections:") connections-IsAscii, parse_int-number a h) refl

  abbrev server_words : List Bytes
  server_words = codes "server" ∷ codes "accepts" ∷ codes "handled" ∷ codes "requests" ∷ []

  server-none : parse_int (codes "server") ≡ none
  unfolding parse_int trim_space prostometrics_agent.Text.Number.parse_int
  server-none = refl

  scan_server : (s : Scan) → scan_fields lw server_words s ≡ s
  unfolding scan_fields equal_fold lower_byte states_line parse_key ◌===◌ has_prefix
  scan_server s = rw server-none refl

  abbrev totals_words : ℕ → ℕ → ℕ → List Bytes
  totals_words x y z = itoa x ∷ itoa y ∷ itoa z ∷ []

  scan_totals :
      (x y z : ℕ) (s : Scan)
      → x < 2 ^ 63
      → y < 2 ^ 63
      → z < 2 ^ 63
      → scan_fields lw (totals_words x y z) s ≡ record s {
        status = record s.status { accepts = pos x; handled = pos y; requests = pos z };
        have_totals = true;
      }
  unfolding scan_fields
  scan_totals x y z s hx hy hz =
      rw
        (
          digits-fold (itoa x) (itoa-digits x),
          parse_int-number x hx,
          parse_int-number y hy,
          parse_int-number z hz,
        )
        refl

  reading-none : parse_int (codes "Reading:") ≡ none
  unfolding parse_int trim_space prostometrics_agent.Text.Number.parse_int
  reading-none = refl

  scan_states :
      (r w v : ℕ) (s : Scan)
      → r < 2 ^ 63
      → w < 2 ^ 63
      → v < 2 ^ 63
      → scan_fields lw (states_words r w v) s ≡ record s {
        status = record s.status { reading = pos r; writing = pos w; waiting = pos v };
        have_states = true;
      }
  unfolding scan_fields equal_fold lower_byte states_line
  scan_states r w v s hr hw hv =
      rw (reading-found r w v hr, writing-found r w v hw, waiting-found r w v hv, reading-none) refl

  -- The page, without the blanks that pad its lines and the line break that ends it.
  abbrev pub page_lines : ℕ → ℕ → ℕ → ℕ → ℕ → ℕ → ℕ → List Bytes
  page_lines a x y z r w v =
      join (active_words a) 32
      ∷ join server_words 32
      ∷ join (totals_words x y z) 32
      ∷ join (states_words r w v) 32
      ∷ []

  -- A line of words is scanned as its words.
  scan-words :
      (w : Bytes) (ws lines : List Bytes) (s : Scan)
      → All IsWord (w ∷ ws)
      → scan_lines lw (join (w ∷ ws) 32 ∷ lines) s ≡ scan_lines lw lines (scan_fields lw (w ∷ ws) s)
  unfolding scan_lines
  scan-words w ws lines s h =
      rw (trim_space-join w ws h, join-not_empty w ws h, fields-join w ws h) refl

  step :
      (w : Bytes) (ws lines : List Bytes) (s : Scan) {t : Scan}
      → All IsWord (w ∷ ws)
      → scan_fields lw (w ∷ ws) s ≡ t
      → scan_lines lw (join (w ∷ ws) 32 ∷ lines) s ≡ scan_lines lw lines t
  step w ws lines s h e = scan-words w ws lines s h ∙ ap (scan_lines lw lines) e

  scan_lines-nil : (s : Scan) → scan_lines lw [] s ≡ s
  unfolding scan_lines
  scan_lines-nil s = refl

  abbrev start : Scan
  start = record {
    status = zero_status lw;
    have_active = false;
    have_totals = false;
    have_states = false;
  }

  active-words : (a : ℕ) → All IsWord (active_words a)
  unfolding all_solid is_ascii_space
  active-words a = (
    is_word_lem (codes "Active") refl,
    (is_word_lem (codes "connections:") refl, (number-IsWord a, tt)),
  )

  server-words : All IsWord server_words
  unfolding all_solid is_ascii_space
  server-words = (
    is_word_lem (codes "server") refl,
    (
      is_word_lem (codes "accepts") refl,
      (is_word_lem (codes "handled") refl, (is_word_lem (codes "requests") refl, tt)),
    ),
  )

  totals-words : (x y z : ℕ) → All IsWord (totals_words x y z)
  totals-words x y z = (number-IsWord x, (number-IsWord y, (number-IsWord z, tt)))

  states-words : (r w v : ℕ) → All IsWord (states_words r w v)
  unfolding all_solid is_ascii_space
  states-words r w v = (
    is_word_lem (codes "Reading:") refl,
    (
      number-IsWord r,
      (
        is_word_lem (codes "Writing:") refl,
        (number-IsWord w, (is_word_lem (codes "Waiting:") refl, (number-IsWord v, tt))),
      ),
    ),
  )

  abbrev pub printed : ℕ → ℕ → ℕ → ℕ → ℕ → ℕ → ℕ → StubStatus
  printed a x y z r w v = record {
    active = pos a;
    accepts = pos x;
    handled = pos y;
    requests = pos z;
    reading = pos r;
    writing = pos w;
    waiting = pos v;
  }

  scan_page :
      (a x y z r w v : ℕ)
      → All (λ n. n < 2 ^ 63) (a ∷ x ∷ y ∷ z ∷ r ∷ w ∷ v ∷ [])
      → scan_lines lw (page_lines a x y z r w v) start ≡ record {
        status = printed a x y z r w v;
        have_active = true;
        have_totals = true;
        have_states = true;
      }
  scan_page a x y z r w v (ha, (hx, (hy, (hz, (hr, (hw, (hv, h))))))) =
      step (codes "Active") (codes "connections:" ∷ itoa a ∷ []) _ start (active-words a)
        (scan_active a start ha)
      ∙ step (codes "server") (codes "accepts" ∷ codes "handled" ∷ codes "requests" ∷ []) _ _
          server-words (scan_server _)
      ∙ step (itoa x) (itoa y ∷ itoa z ∷ []) _ _ (totals-words x y z) (scan_totals x y z _ hx hy hz)
      ∙ step (codes "Reading:")
          (itoa r ∷ codes "Writing:" ∷ itoa w ∷ codes "Waiting:" ∷ itoa v ∷ []) [] _
          (states-words r w v) (scan_states r w v _ hr hw hv)
      ∙ scan_lines-nil _

  page-Lacks : (a x y z r w v : ℕ) → All (Lacks 10) (page_lines a x y z r w v)
  page-Lacks a x y z r w v = (
    join-Lacks (codes "Active") (codes "connections:" ∷ itoa a ∷ []) (active-words a),
    (
      join-Lacks (codes "server") (codes "accepts" ∷ codes "handled" ∷ codes "requests" ∷ [])
          server-words,
      (
        join-Lacks (itoa x) (itoa y ∷ itoa z ∷ []) (totals-words x y z),
        (
          join-Lacks (codes "Reading:")
              (itoa r ∷ codes "Writing:" ∷ itoa w ∷ codes "Waiting:" ∷ itoa v ∷ [])
              (states-words r w v),
          tt,
        ),
      ),
    ),
  )

  -- A status page that is printed in nginx's form, less the blanks that pad its lines and the line
  -- break that ends it, is read back as the numbers that were printed, each in its place. The numbers
  -- are below 2 ^ 63.
  pub parse_stub_status_lem :
      (a x y z r w v : ℕ)
      → All (λ n. n < 2 ^ 63) (a ∷ x ∷ y ∷ z ∷ r ∷ w ∷ v ∷ [])
      → parse_stub_status lw (join (page_lines a x y z r w v) 10) ≡ some (printed a x y z r w v)
  unfolding parse_stub_status
  parse_stub_status_lem a x y z r w v h =
      rw
        (
          split-join 10 (join (active_words a) 32)
              (join server_words 32
                ∷ join (totals_words x y z) 32
                ∷ join (states_words r w v) 32
                ∷ [])
              (page-Lacks a x y z r w v),
          scan_page a x y z r w v h,
        )
        refl
