-- ===== src/Redis/Wire/Framing.antt =====
-- What is written as a bulk is read back as it was, whatever bytes it holds.
use mathlib.Core.List.{reverse-append, reverse-reverse}
use prostometrics_agent.Base.{
  ℕ, zero, suc, ◌≤◌, false, List, [], ◌∷◌, ◌++◌, ◌≡◌, ◌≢◌, refl, ap, arith, Option, none, some,
  Bytes, length, All, All-append, Lacks, reverse, append_assoc, length-append, take-append_full,
}
use prostometrics_agent.Redis.Wire.{
  max_bulk_bytes, line_end, bulk, bulks, Reply, replied, refused, read_bulk, read_line, read_reply,
}
use prostometrics_agent.Text.Number.{itoa}
use prostometrics_agent.Text.Number.Inverse.{IsDigit, itoa-digits, parse_int-itoa}
use prostometrics_agent.Text.Search.Appended.{cut-append, drop-append_more}
use prostometrics_agent.Text.Search.{trim_right_of, trim_left_of, is_one_of}

trim_left_of-none : (bs s : Bytes) → All (λ c. is_one_of bs c ≡ false) s → trim_left_of bs s ≡ s
unfolding trim_left_of
trim_left_of-none bs [] h = refl
trim_left_of-none bs (c ∷ s) (hc, h) = ground arith

digits-plain : (s : Bytes) → All IsDigit s → All (λ c. is_one_of line_end c ≡ false) s
unfolding is_one_of
digits-plain [] h = tt
digits-plain (c ∷ s) (hc, h) = (ground arith, digits-plain s h)

digits-Lacks : (s : Bytes) → All IsDigit s → Lacks 10 s
digits-Lacks [] h = tt
digits-Lacks (c ∷ s) (hc, h) = (ground arith, digits-Lacks s h)

All-reverse :
    (s : Bytes)
    → All (λ c. is_one_of line_end c ≡ false) s
    → All (λ c. is_one_of line_end c ≡ false) (reverse s)
All-reverse [] h = tt
All-reverse (c ∷ s) (pc, h) =
    rw (reverse-append (c ∷ []) s) (
      All-append (λ d. is_one_of line_end d ≡ false) (reverse s) (c ∷ []) (All-reverse s h)
        (pc, tt))

trim_line_end :
    (s : Bytes)
    → All (λ c. is_one_of line_end c ≡ false) s
    → trim_right_of line_end ((s ++ 13 ∷ []) ++ 10 ∷ []) ≡ s
unfolding trim_right_of trim_left_of is_one_of
trim_line_end s h =
    rw
      (
        reverse-append (s ++ 13 ∷ []) (10 ∷ []),
        reverse-append s (13 ∷ []),
        trim_left_of-none line_end (reverse s) (All-reverse s h),
        reverse-reverse s,
      )
      refl

header-plain : (n : ℕ) → All (λ c. is_one_of line_end c ≡ false) (b'$' ∷ itoa n)
unfolding is_one_of
header-plain n = (refl, digits-plain (itoa n) (itoa-digits n))

header-Lacks : (n : ℕ) → Lacks 10 ((b'$' ∷ itoa n) ++ 13 ∷ [])
header-Lacks n = (
  omega arith,
  All-append (λ c. c ≢ 10) (itoa n) (13 ∷ []) (digits-Lacks (itoa n) (itoa-digits n))
      (omega arith, tt),
)

assoc_end :
    (hdr arg rest : Bytes)
    → (((hdr ++ line_end) ++ arg) ++ line_end) ++ rest
      ≡ (hdr ++ 13 ∷ []) ++ 10 ∷ (arg ++ (line_end ++ rest))
assoc_end [] arg rest = ap (λ x. 13 ∷ 10 ∷ x) (append_assoc arg line_end rest)
assoc_end (c ∷ hdr) arg rest = ap (◌∷◌ c) (assoc_end hdr arg rest)

read_bulk-exact :
    (arg rest : Bytes)
    → length arg ≤ max_bulk_bytes
    → read_bulk (length arg) (arg ++ (line_end ++ rest)) ≡ replied arg rest
read_bulk-exact arg rest h =
    rw
      (
        take-append_full arg (line_end ++ rest) (length arg) refl,
        drop-append_more arg (line_end ++ rest) 2,
      )
      (ground (arith, h, length-append arg (line_end ++ rest)))

read_line-bulk :
    (arg rest : Bytes)
    → length arg ≤ max_bulk_bytes
    → read_line (b'$' ∷ itoa (length arg)) (arg ++ (line_end ++ rest)) ≡ replied arg rest
read_line-bulk arg rest h =
    rw (parse_int-itoa (length arg) (omega arith)) (read_bulk-exact arg rest h)

-- A bulk of at most four megabytes is read back, whatever bytes it holds, and nothing of what
-- follows it is touched.
pub read_reply-bulk :
    (arg rest : Bytes)
    → length arg ≤ max_bulk_bytes
    → read_reply (bulk arg ++ rest) ≡ replied arg rest
unfolding read_reply
read_reply-bulk arg rest h =
    rw
      (
        assoc_end (b'$' ∷ itoa (length arg)) arg rest,
        cut-append ((b'$' ∷ itoa (length arg)) ++ 13 ∷ []) (arg ++ (line_end ++ rest)) 10
            (header-Lacks (length arg)),
        trim_line_end (b'$' ∷ itoa (length arg)) (header-plain (length arg)),
      )
      (read_line-bulk arg rest h)

-- What reading a number of replies gives, as a server of the same protocol reads the arguments of a
-- request.
abbrev then_read : Reply → (Bytes → Option (List Bytes × Bytes)) → Option (List Bytes × Bytes)
then_read (refused e rest) next = none
then_read (replied arg rest) next = elim (next rest) [
  | none ↦ none
  | some (args, left) ↦ some (arg ∷ args, left)
]

unfoldable pub read_replies : ℕ → Bytes → Option (List Bytes × Bytes)
read_replies zero s = some ([], s)
read_replies (suc n) s = then_read (read_reply s) (read_replies n)

-- The arguments of a command, each of at most four megabytes, are read back one by one as they were
-- given, whatever bytes they hold and whatever follows: none of them can end its bulk early or pass
-- for another argument.
pub read_replies-bulks :
    (args : List Bytes) (rest : Bytes)
    → All (λ arg. length arg ≤ max_bulk_bytes) args
    → read_replies (length args) (bulks args ++ rest) ≡ some (args, rest)
unfolding read_replies bulks
read_replies-bulks [] rest h = refl
read_replies-bulks (arg ∷ args) rest (ha, h) =
    rw
      (
        append_assoc (bulk arg) (bulks args) rest,
        read_reply-bulk arg (bulks args ++ rest) ha,
        read_replies-bulks args rest h,
      )
      refl
