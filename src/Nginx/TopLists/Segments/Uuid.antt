-- ===== src/Nginx/TopLists/Segments/Uuid.antt =====
-- Every dashed UUID stands for a record.
use prostometrics_agent.Base.{
  ℕ, suc, ◌+◌, ◌≤◌, true, [], ◌∷◌, ◌++◌, ◌≡◌, ◌≢◌, ◌⊎◌, inl, inr, refl, arith, ◌∙◌, ap, append-nil,
  Bytes, length, length-append, All, Bool-cases,
}
use prostometrics_agent.Nginx.TopLists.Segments.{
  uuid_from, is_dashed_uuid, is_empty, is_all_digits, is_identifier_segment, IsHexDigit,
  is_hex_digit_complete,
}

-- So many hexadecimal digits.
abbrev pub IsGroup : ℕ → Bytes → Type 0
IsGroup n s = (length s ≡ n) × All IsHexDigit s

-- Five groups of hexadecimal digits with dashes between them.
abbrev pub IsUuid : Bytes → Type 0
IsUuid s =
    (a : Bytes) × (b : Bytes) × (c : Bytes) × (d : Bytes) × (e : Bytes) × (s
      ≡ a ++ b'-' ∷ (b ++ b'-' ∷ (c ++ b'-' ∷ (d ++ b'-' ∷ e))))
    × IsGroup 8 a
    × IsGroup 4 b
    × IsGroup 4 c
    × IsGroup 4 d
    × IsGroup 12 e

-- No dash is due at the positions from `i` on, as many as there are.
abbrev Free : ℕ → ℕ → Type 0
Free i n =
    (i + n ≤ 8)
    ⊎ ((9 ≤ i) × (i + n ≤ 13))
    ⊎ ((14 ≤ i) × (i + n ≤ 18))
    ⊎ ((19 ≤ i) × (i + n ≤ 23))
    ⊎ (24 ≤ i)

Free-step : (i n : ℕ) → Free i (suc n) → (i ≢ 8) × (i ≢ 13) × (i ≢ 18) × (i ≢ 23) × Free (i + 1) n
Free-step i n h = (omega arith, omega arith, omega arith, omega arith, ground arith)

uuid_from-digit :
    (i c : ℕ) (s : Bytes)
    → (i ≢ 8) × (i ≢ 13) × (i ≢ 18) × (i ≢ 23)
    → IsHexDigit c
    → uuid_from i (c ∷ s) ≡ uuid_from (i + 1) s
unfolding uuid_from
uuid_from-digit i c s h k = ground (arith, is_hex_digit_complete c k)

-- The loop passes over a group, to the position `j`.
uuid_from-group :
    (i j : ℕ) (s rest : Bytes)
    → i + length s ≡ j
    → Free i (length s)
    → All IsHexDigit s
    → uuid_from i (s ++ rest) ≡ uuid_from j rest
uuid_from-group i j [] rest e f h = ap (λ k. uuid_from k rest) (omega arith)
uuid_from-group i j (c ∷ s) rest e f (hc, h) =
    let (e8, e13, e18, e23, later) = Free-step i (length s) f in
    uuid_from-digit i c (s ++ rest) (e8, e13, e18, e23) hc
    ∙ uuid_from-group (i + 1) j s rest (omega arith) later h

dash :
    (i : ℕ) (s : Bytes)
    → (i ≡ 8) ⊎ (i ≡ 13) ⊎ (i ≡ 18) ⊎ (i ≡ 23)
    → uuid_from i (b'-' ∷ s) ≡ uuid_from (i + 1) s
unfolding uuid_from
dash i s h = ground arith

is_identifier_segment-dashed :
    (c : ℕ) (s : Bytes) → is_dashed_uuid (c ∷ s) ≡ true → is_identifier_segment (c ∷ s) ≡ true
unfolding is_identifier_segment is_empty
is_identifier_segment-dashed c s h = elim (Bool-cases (is_all_digits (c ∷ s))) [
  | inl e ↦ rw e refl
  | inr e ↦ rw (e, h) refl
]

uuid_from-end : (i : ℕ) → uuid_from i [] ≡ true
unfolding uuid_from
uuid_from-end i = refl

uuid_from-groups :
    (a b c d e : Bytes)
    → IsGroup 8 a
    → IsGroup 4 b
    → IsGroup 4 c
    → IsGroup 4 d
    → IsGroup 12 e
    → uuid_from 0 (a ++ b'-' ∷ (b ++ b'-' ∷ (c ++ b'-' ∷ (d ++ b'-' ∷ (e ++ []))))) ≡ true
uuid_from-groups a b c d e (la, ha) (lb, hb) (lc, hc) (ld, hd) (le, he) =
    uuid_from-group 0 8 a _ (omega arith) (inl (omega arith)) ha
    ∙ dash 8 _ (inl refl)
    ∙ uuid_from-group 9 13 b _ (omega arith) (inr (inl (omega arith, omega arith))) hb
    ∙ dash 13 _ (inr (inl refl))
    ∙ uuid_from-group 14 18 c _ (omega arith) (inr (inr (inl (omega arith, omega arith)))) hc
    ∙ dash 18 _ (inr (inr (inl refl)))
    ∙ uuid_from-group 19 23 d _ (omega arith) (inr (inr (inr (inl (omega arith, omega arith))))) hd
    ∙ dash 23 _ (inr (inr (inr refl)))
    ∙ uuid_from-group 24 36 e [] (omega arith) (inr (inr (inr (inr (omega arith))))) he
    ∙ uuid_from-end 36

length-uuid :
    (a b c d e : Bytes)
    → length a ≡ 8
    → length b ≡ 4
    → length c ≡ 4
    → length d ≡ 4
    → length e ≡ 12
    → length (a ++ b'-' ∷ (b ++ b'-' ∷ (c ++ b'-' ∷ (d ++ b'-' ∷ e)))) ≡ 36
length-uuid a b c d e la lb lc ld le = omega (
  arith,
  length-append a (b'-' ∷ (b ++ b'-' ∷ (c ++ b'-' ∷ (d ++ b'-' ∷ e)))),
  length-append b (b'-' ∷ (c ++ b'-' ∷ (d ++ b'-' ∷ e))),
  length-append c (b'-' ∷ (d ++ b'-' ∷ e)),
  length-append d (b'-' ∷ e),
)

is_identifier_segment-long :
    (s : Bytes) → length s ≡ 36 → uuid_from 0 s ≡ true → is_identifier_segment s ≡ true
is_identifier_segment-long [] l h = absurd (omega arith)
is_identifier_segment-long (c ∷ s) l h =
    is_identifier_segment-dashed c s (unfold is_dashed_uuid in ground (arith, h, l))

pub is_identifier_segment-uuid : (s : Bytes) → IsUuid s → is_identifier_segment s ≡ true
is_identifier_segment-uuid s (a, b, c, d, e, same, ga, gb, gc, gd, ge) = rw same (
    is_identifier_segment-long _ (length-uuid a b c d e ga.0 gb.0 gc.0 gd.0 ge.0)
      (rw (append-nil e) at (uuid_from-groups a b c d e ga gb gc gd ge)))
