-- ===== src/Nginx/AccessLog/Tail/Chunks.antt =====
-- Reading a log in pieces gives the lines of reading it whole.
use mathlib.Core.List.{reverse-append, reverse-reverse}
use prostometrics_agent.Base.{
  reverse, ℕ, ◌≤◌, false, List, [], ◌∷◌, ◌++◌, ◌≡◌, ◌≢◌, refl, ap, ◌∙◌, arith, Bytes, Bool-cases,
  inl, inr, if◌then◌else◌, ◌==◌, length, append_assoc, append-nil, All, All-append, Lacks,
}
use prostometrics_agent.Nginx.AccessLog.Tail.{
  newline, carriage_return, max_line_bytes, keep_partial, add_line, trim_end, read_chunks,
}
use prostometrics_agent.Text.Search.{trim_right_of, trim_left_of, is_one_of}

-- A byte that does not end a line.
abbrev pub Inner : ℕ → Type 0
Inner c = (c ≢ newline) × (c ≢ carriage_return)

-- What a read leaves, before it is held against the limit.
abbrev pub fragment : Bytes → Bytes → Bytes → Bytes
fragment partial chunk [] = partial ++ chunk
fragment partial chunk (c ∷ s) =
    if c == newline then fragment [] [] s else fragment partial (chunk ++ c ∷ []) s

All-reverse : (s : Bytes) → All Inner s → All Inner (reverse s)
All-reverse [] h = tt
All-reverse (c ∷ s) (pc, h) =
    rw (reverse-append (c ∷ []) s)
      (All-append Inner (reverse s) (c ∷ []) (All-reverse s h) (pc, tt))

abbrev ends : Bytes
ends = carriage_return ∷ newline ∷ []

Inner-is_one_of : (c : ℕ) → Inner c → is_one_of ends c ≡ false
unfolding is_one_of
Inner-is_one_of c h = ground arith

trim_left-Inner : (z : Bytes) → All Inner z → trim_left_of ends z ≡ z
unfolding trim_left_of
trim_left-Inner [] h = refl
trim_left-Inner (c ∷ z) h = rw (Inner-is_one_of c h.0)

trim_left-append :
    (y z : Bytes) → All Inner z → trim_left_of ends (y ++ z) ≡ trim_left_of ends y ++ z
unfolding trim_left_of
trim_left-append [] z h = trim_left-Inner z h
trim_left-append (c ∷ y) z h = elim (Bool-cases (is_one_of ends c)) [
  | inl e ↦ rw e (trim_left-append y z h)
  | inr e ↦ rw e
]

trim_end-append : (s x : Bytes) → All Inner s → trim_end (s ++ x) ≡ s ++ trim_end x
unfolding trim_end trim_right_of
trim_end-append s x h = rw (
  reverse-append s x,
  trim_left-append (reverse x) (reverse s) (All-reverse s h),
  reverse-append,
  reverse-reverse,
)

-- A chunk's inner bytes may as well stand in the fragment.
read_chunks-shift :
    (s partial front chunk : Bytes)
    → All Inner front
    → read_chunks partial (front ++ chunk) s ≡ read_chunks (partial ++ front) chunk s
unfolding read_chunks
read_chunks-shift [] partial front chunk h = rw append_assoc
read_chunks-shift (c ∷ s) partial front chunk h = elim (Bool-cases (c == newline)) [
  | inl e ↦ rw e (rw (append_assoc, trim_end-append front (chunk ++ c ∷ []) h, append_assoc))
  | inr e ↦ rw (e, append_assoc) (read_chunks-shift s partial front (chunk ++ c ∷ []) h)
]

add_line-append : (x : Bytes) (l m : List Bytes) → add_line x (l ++ m) ≡ add_line x l ++ m
add_line-append [] l m = refl
add_line-append (c ∷ x) l m = refl

keep_partial-short : (p : Bytes) → length p ≤ max_line_bytes → keep_partial p ≡ p
unfolding keep_partial
keep_partial-short p h = ground arith

read_chunks-append :
    (a b partial chunk : Bytes)
    → All Inner chunk
    → Lacks carriage_return a
    → length (fragment partial chunk a) ≤ max_line_bytes
    → read_chunks partial chunk (a ++ b) ≡ (
      (read_chunks partial chunk a).0 ++ (read_chunks (read_chunks partial chunk a).1 [] b).0,
      (read_chunks (read_chunks partial chunk a).1 [] b).1,
    )
unfolding read_chunks
read_chunks-append [] b partial chunk hc ha fits =
    rw (keep_partial-short (partial ++ chunk) fits)
      (rw (append-nil chunk) at (read_chunks-shift b partial chunk [] hc))
read_chunks-append (c ∷ a) b partial chunk hc ha fits = elim (Bool-cases (c == newline)) [
  | inl e ↦
      let ih = read_chunks-append a b [] [] tt ha.1 (rw e at fits) in
      let x = partial ++ trim_end (chunk ++ c ∷ []) in
      rw e (
        ap {B = List Bytes × Bytes} (λ (d : List Bytes × Bytes). (add_line x d.0, d.1)) ih
        ∙ ap {B = List Bytes × Bytes}
            (λ (l : List Bytes). (l, (read_chunks (read_chunks [] [] a).1 [] b).1))
            (add_line-append x (read_chunks [] [] a).0
              (read_chunks (read_chunks [] [] a).1 [] b).0))
  | inr e ↦ rw e (
      read_chunks-append a b partial (chunk ++ c ∷ [])
        (All-append Inner chunk (c ∷ []) hc ((ground arith, ha.0), tt)) ha.1 (rw e at fits))
]

-- Reading appended bytes in two ticks yields the lines, and leaves the fragment, of reading them in
-- one, if the first piece holds no carriage return and leaves a fragment within the limit.
pub read_chunks_split :
    (partial a b : Bytes)
    → Lacks carriage_return a
    → length (fragment partial [] a) ≤ max_line_bytes
    → read_chunks partial [] (a ++ b) ≡ (
      (read_chunks partial [] a).0 ++ (read_chunks (read_chunks partial [] a).1 [] b).0,
      (read_chunks (read_chunks partial [] a).1 [] b).1,
    )
read_chunks_split partial a b = read_chunks-append a b partial [] tt
