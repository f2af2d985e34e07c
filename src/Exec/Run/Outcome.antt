-- ===== src/Exec/Run/Outcome.antt =====
-- What a command may publish.
use prostometrics_agent.Base.{
  ℕ, zero, suc, ◌+◌, ◌≤◌, ◌<◌, false, List, [], ◌∷◌, ◌≡◌, ◌≢◌, ◌⊎◌, refl, arith, Option, none, some,
  Bytes, ◌===◌, leb, ltb, length, Bool-cases, Option-cases, inl, inr, All,
}
use prostometrics_agent.Exec.{Command, max_output_bytes, max_lines_per_command}
use prostometrics_agent.Exec.Run.{
  Exit, failed, printed, RunError, stopped_after_lines, negative_value, Published, count,
  value_sparse, parse_output_line, publish, run_lines, run_command, is_counter,
}
use prostometrics_agent.Floats.{Floats}
use prostometrics_agent.Text.Search.{split}
use prostometrics_agent.Text.Space.{trim_space}

module _ (fl : Floats) where
  open fl use {F, is_negative}

  -- The metric is the command's and the value is not negative.
  abbrev pub IsGood : Command → Published fl → Type 0
  IsGood c (count metric v labels) = (metric ≡ c.metric) × (is_negative v ≡ false)
  IsGood c (value_sparse metric v labels) = (metric ≡ c.metric) × (is_negative v ≡ false)

  publish-IsGood :
      (c : Command) (v : F) (labels : List Bytes)
      → is_negative v ≡ false
      → IsGood c (publish fl c v labels)
  unfolding publish
  publish-IsGood c v labels h = elim (Bool-cases (is_counter c.kind)) [
    | inl e ↦ rw e (refl, h)
    | inr e ↦ rw e (refl, h)
  ]

  -- What holds of the loop's result after `n` lines were published.
  abbrev pub Bounded : Command → ℕ → List (Published fl) × Option RunError → Type 0
  Bounded c n r =
      All (IsGood c) r.0
      × (n + length r.0 ≤ max_lines_per_command)
      × ((r.1 ≢ none) ⊎ (0 < n + length r.0))

  stopped-Bounded :
      (c : Command) (n : ℕ) (e : RunError) → n ≤ max_lines_per_command → Bounded c n ([], some e)
  stopped-Bounded c n e h = (tt, omega arith, inl (λ q. ground (arith, q)))

  later-Bounded :
      (c : Command) (n : ℕ) (x : Published fl) (r : List (Published fl) × Option RunError)
      → IsGood c x
      → Bounded c (n + 1) r
      → Bounded c n (x ∷ r.0, r.1)
  later-Bounded c n x r hx (good, few, silent) = ((hx, good), omega arith, inr (omega arith))

  run_lines-Bounded :
      (c : Command) (lines : List Bytes) (n : ℕ)
      → n ≤ max_lines_per_command
      → Bounded c n (run_lines fl c n lines)
  unfolding run_lines
  run_lines-Bounded c [] zero h = (tt, omega arith, inl (λ q. ground (arith, q)))
  run_lines-Bounded c [] (suc n) h = (tt, omega arith, inr (omega arith))
  run_lines-Bounded c (raw ∷ lines) n h = elim (Bool-cases (trim_space raw === [])) [
    | inl e ↦ rw (e, run_lines) (run_lines-Bounded c lines n h)
    | inr e ↦ elim (Bool-cases (leb max_lines_per_command n)) [
      | inl full ↦ rw (e, full, run_lines) (stopped-Bounded c n stopped_after_lines h)
      | inr room ↦ elim (Option-cases (parse_output_line fl (trim_space raw))) [
        | inl o ↦ rw (e, room, o, run_lines) (run_lines-Bounded c lines n h)
        | inr ((v, labels), o) ↦ elim (Bool-cases (is_negative v)) [
          | inl neg ↦ rw (e, room, o, neg, run_lines) (stopped-Bounded c n negative_value h)
          | inr pos ↦
              rw (e, room, o, pos, run_lines)
                (later-Bounded c n (publish fl c v labels) (run_lines fl c (n + 1) lines)
                  (publish-IsGood c v labels pos)
                  (run_lines-Bounded c lines (n + 1) (ground arith)))
        ]
      ]
    ]
  ]

  -- A run publishes at most fifty values, each of them under the command's own metric and none of
  -- them negative, and a run that reports no error has published at least one.
  pub run_command_lem : (c : Command) (exit : Exit) → Bounded c 0 (run_command fl c exit)
  unfolding run_command
  run_command_lem c failed = (tt, omega arith, inl (λ q. ground (arith, q)))
  run_command_lem c (printed stdout) = elim (Bool-cases (ltb max_output_bytes (length stdout))) [
    | inl e ↦ rw e (tt, omega arith, inl (λ q. ground (arith, q)))
    | inr e ↦ rw e (run_lines-Bounded c (split (trim_space stdout) 10) 0 (omega arith))
  ]
