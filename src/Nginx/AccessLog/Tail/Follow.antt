-- ===== src/Nginx/AccessLog/Tail/Follow.antt =====
-- The fragment and the outcome of whole calls of `readNewLines`.
use prostometrics_agent.Base.{
  ℕ, ◌≤◌, true, false, not, ◌&&◌, [], ◌∷◌, ◌++◌, ◌≡◌, refl, ◌∙◌, arith, Bytes, Bool-cases, inl, inr,
  ◌==◌, length, drop, Option, none, some,
}
use prostometrics_agent.Nginx.AccessLog.Tail.{
  new_log_tail, LogTail, Answers, Outcome, lines_read, Identity, close, rotated, open_new,
  ensure_open, keep_partial, read_chunks, rewind, skip_ahead, read_from, read_sized, read_opened,
  read_new_lines, max_line_bytes,
}

keep_partial-le : (p : Bytes) → length (keep_partial p) ≤ max_line_bytes
unfolding keep_partial
keep_partial-le p = ground arith

read_chunks-fragment :
    (s partial chunk : Bytes) → length (read_chunks partial chunk s).1 ≤ max_line_bytes
unfolding read_chunks
read_chunks-fragment [] partial chunk = keep_partial-le (partial ++ chunk)
read_chunks-fragment (c ∷ s) partial chunk = elim (Bool-cases (c == 10)) [
  | inl e ↦ rw e (read_chunks-fragment s [] [])
  | inr e ↦ rw e (read_chunks-fragment s partial (chunk ++ c ∷ []))
]

-- The fragment that is kept between ticks is within the limit on a line.
abbrev pub Kept : LogTail → Type 0
Kept t = length t.partial ≤ max_line_bytes

rewind-Kept : (size : ℕ) (t : LogTail) → Kept t → Kept (rewind size t)
unfolding rewind
rewind-Kept size t k = ground arith

skip_ahead-Kept : (size : ℕ) (t : LogTail) → Kept t → Kept (skip_ahead size t)
unfolding skip_ahead
skip_ahead-Kept size t k = ground arith

read_from-Kept : (t : LogTail) (content : Bytes) → Kept (read_from t content).0
unfolding read_from
read_from-Kept t content = read_chunks-fragment (drop t.offset content) t.partial []

-- A call ends with the lines read, or with an error and the file closed.
abbrev pub Settled : LogTail × Outcome → Type 0
Settled (t, lines_read lines) = t.opened ≡ true
Settled (t, _) = t.opened ≡ false

ensure_open-opened : (t : LogTail) (a : Answers) → (ensure_open t a).0.opened ≡ (ensure_open t a).1
unfolding ensure_open open_new close
ensure_open-opened t a = ground arith

open_new-Kept : (t : LogTail) (o : Option (Identity × ℕ)) → Kept t → Kept (open_new t o).0
unfolding open_new
open_new-Kept t none k = k
open_new-Kept t (some (i, size)) k = omega arith

ensure_open-Kept : (t : LogTail) (a : Answers) → Kept t → Kept (ensure_open t a).0
unfolding ensure_open
ensure_open-Kept t a k = elim (Bool-cases (t.opened && not (rotated t a.stat_path))) [
  | inl e ↦ rw e k
  | inr e ↦ rw e (open_new-Kept (close t) a.open_path (unfold close in k))
]

skip_ahead-opened : (size : ℕ) (t : LogTail) → (skip_ahead size (rewind size t)).opened ≡ t.opened
unfolding skip_ahead rewind
skip_ahead-opened size t = ground arith

rewind-opened : (size : ℕ) (t : LogTail) → (rewind size t).opened ≡ t.opened
unfolding rewind
rewind-opened size t = ground arith

read_sized_safe :
    (size : ℕ) (t : LogTail) (a : Answers)
    → Kept t
    → t.opened ≡ true
    → Kept (read_sized size t a).0 × Settled (read_sized size t a)
unfolding read_sized
read_sized_safe size t a k o = elim (Bool-cases (size == (rewind size t).offset)) [
  | inl e ↦ rw e (rewind-Kept size t k, rewind-opened size t ∙ o)
  | inr e ↦
      let kept = skip_ahead-Kept size (rewind size t) (rewind-Kept size t k) in
      elim (Bool-cases a.seek_ok) [
        | inl s ↦
            rw (e, s)
              (
                read_from-Kept (skip_ahead size (rewind size t)) a.content,
                unfold read_from in (skip_ahead-opened size t ∙ o),
              )
        | inr s ↦ rw (e, s) (unfold close in (kept, refl))
      ]
]

read_opened_safe :
    (t : LogTail) (o : Option ℕ) (a : Answers)
    → Kept t
    → t.opened ≡ true
    → Kept (read_opened t o a).0 × Settled (read_opened t o a)
unfolding read_opened close
read_opened_safe t none a k o = (k, refl)
read_opened_safe t (some size) a k o = read_sized_safe size t a k o

-- Whatever the operating system answers, a call keeps at most `maxLineBytes` of an unfinished line,
-- and it fails exactly when it leaves the file closed.
pub read_new_lines_safe :
    (t : LogTail) (a : Answers)
    → Kept t
    → Kept (read_new_lines t a).0 × Settled (read_new_lines t a)
unfolding read_new_lines
read_new_lines_safe t a k =
    let same = ensure_open-opened t a in
    let kept = ensure_open-Kept t a k in
    elim (Bool-cases (ensure_open t a).1) [
      | inl e ↦ rw e (read_opened_safe (ensure_open t a).0 a.stat_file a kept (same ∙ e))
      | inr e ↦ rw e (kept, same ∙ e)
    ]

-- A new reader reports nothing of what the log held when it was first opened, and stands at its end.
pub first_open :
    (a : Answers) (i : Identity) (size : ℕ)
    → a.open_path ≡ some (i, size)
    → a.stat_file ≡ some size
    → ((read_new_lines new_log_tail a).1 ≡ lines_read [])
      × ((read_new_lines new_log_tail a).0.offset ≡ size)
unfolding read_new_lines ensure_open open_new close read_opened read_sized rewind
first_open a i size opened stat = (ground arith, ground arith)
