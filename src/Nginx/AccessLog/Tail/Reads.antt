-- ===== src/Nginx/AccessLog/Tail/Reads.antt =====
-- What one tick reads of the file, in `readNewLines`.
use prostometrics_agent.Base.{
  ℕ, ◌+◌, ◌≤◌, ◌<◌, ltb, suc, zero, ◌-◌, true, [], ◌∷◌, ◌≡◌, refl, sym, ◌∙◌, arith, Bytes,
  Bool-cases, ◌⊎◌, inl, inr, ◌==◌, ==_iff, length, length-drop, drop,
}
use prostometrics_agent.Nginx.AccessLog.Tail.{
  LogTail, Answers, Outcome, lines_read, read_chunks, rewind, skip_ahead, read_from, read_sized,
  max_bytes_per_tick,
}

read_from-offset :
    (t : LogTail) (content : Bytes)
    → t.offset ≤ length content
    → (read_from t content).0.offset ≡ length content
unfolding read_from
read_from-offset t content h = omega (arith, length-drop t.offset content)

-- Where a tick begins to read, and with which fragment: where the last one stopped, or at the start
-- of a file that became shorter, or `maxBytesPerTick` before the end of what is too much to read.
abbrev pub StartsAt : ℕ → LogTail → ℕ → Bytes → Type 0
StartsAt size t start partial =
    ((t.offset ≤ size)
      × (size ≤ t.offset + max_bytes_per_tick)
      × (start ≡ t.offset)
      × (partial ≡ t.partial))
    ⊎ (((size < t.offset) × (size ≤ max_bytes_per_tick) × (start ≡ 0) × (partial ≡ []))
        ⊎ ((start + max_bytes_per_tick ≡ size)
            × ((t.offset < start) ⊎ (size < t.offset))
            × (partial ≡ [])))

skip_ahead-StartsAt :
    (size : ℕ) (t : LogTail)
    → let s = skip_ahead size (rewind size t) in StartsAt size t s.offset s.partial
unfolding skip_ahead rewind
skip_ahead-StartsAt size t = elim (Bool-cases (ltb size t.offset)) [
  | inl short ↦ elim (Bool-cases (ltb max_bytes_per_tick (size - 0))) [
    | inl long ↦ rw (short, long) (inr (inr (ground arith, inr (ground arith), refl)))
    | inr few ↦ rw (short, few) (inr (inl (ground arith, ground arith, refl, refl)))
  ]
  | inr grown ↦ elim (Bool-cases (ltb max_bytes_per_tick (size - t.offset))) [
    | inl long ↦ rw (grown, long) (inr (inr (ground arith, inl (ground arith), refl)))
    | inr few ↦ rw (grown, few) (inl (ground arith, ground arith, refl, refl))
  ]
]

skip_ahead-offset :
    (size : ℕ) (t : LogTail)
    → let s = skip_ahead size (rewind size t) in
      (s.offset ≤ size) × (size ≤ s.offset + max_bytes_per_tick)
unfolding skip_ahead rewind
skip_ahead-offset size t = (ground arith, ground arith)

skip_ahead-end :
    (size : ℕ) (t : LogTail)
    → size ≡ (rewind size t).offset
    → (skip_ahead size (rewind size t)).offset ≡ size
unfolding skip_ahead
skip_ahead-end size t e = ground arith

drop-all : (n : ℕ) (s : Bytes) → length s ≤ n → drop n s ≡ []
drop-all zero [] h = refl
drop-all zero (c ∷ s) h = absurd (omega arith)
drop-all (suc n) [] h = refl
drop-all (suc n) (c ∷ s) h = drop-all n s (omega arith)

pub read_sized-lines :
    (size : ℕ) (t : LogTail) (a : Answers)
    → a.seek_ok ≡ true
    → length a.content ≡ size
    → let s = skip_ahead size (rewind size t) in
      (read_sized size t a).1 ≡ lines_read (read_chunks s.partial [] (drop s.offset a.content)).0
unfolding read_sized
read_sized-lines size t a ok same = elim (Bool-cases (size == (rewind size t).offset)) [
  | inl e ↦
      let stay = (==_iff size (rewind size t).offset).0 e in
      rw (e, skip_ahead-end size t stay, drop-all size a.content (omega arith))
        (unfold read_chunks in refl)
  | inr e ↦ rw (e, ok) (unfold read_from in refl)
]

-- What a tick reads of a file that holds `size` bytes: the lines from some place on, at most
-- `maxBytesPerTick` bytes of it, and all to the end.
abbrev pub ReadsFrom : ℕ → LogTail → Bytes → LogTail × Outcome → ℕ → Bytes → Type 0
ReadsFrom size t content r start partial =
    StartsAt size t start partial
    × (r.1 ≡ lines_read (read_chunks partial [] (drop start content)).0)
    × (length (drop start content) ≤ max_bytes_per_tick)
    × (r.0.offset ≡ size)

-- When the seek succeeds and the file still has the size that was taken, a tick reports the lines of
-- the file from one place to its end: from where the last tick stopped, with the fragment it left,
-- when at most `maxBytesPerTick` bytes are new; from the start, without the fragment, when the file
-- became shorter; and from `maxBytesPerTick` before the end, without the fragment, when there is
-- more to read than that. It ends at the end of the file.
pub read_sized_lem :
    (size : ℕ) (t : LogTail) (a : Answers)
    → a.seek_ok ≡ true
    → length a.content ≡ size
    → (start : ℕ) × (partial : Bytes) × ReadsFrom size t a.content
        (read_sized size t a)
        start
        partial
unfolding read_sized
read_sized_lem size t a ok same =
    let from = skip_ahead size (rewind size t) in
    let (low, high) = skip_ahead-offset size t in
    let ends =
      elim (Bool-cases (size == (rewind size t).offset))
        as (λ _. (read_sized size t a).0.offset ≡ size) [
          | inl e ↦ rw e (sym ((==_iff size (rewind size t).offset).0 e))
          | inr e ↦ rw (e, ok) (read_from-offset _ a.content (omega arith) ∙ same)
        ] in
    (
      from.offset,
      from.partial,
      (
        skip_ahead-StartsAt size t,
        read_sized-lines size t a ok same,
        omega (arith, length-drop from.offset a.content),
        ends,
      ),
    )
