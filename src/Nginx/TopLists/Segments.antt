-- ===== src/Nginx/TopLists/Segments.antt =====
-- internal/collectors/nginx/toplists.go: `isIdentifierSegment` and the three tests it makes.
pub mod Uuid
use prostometrics_agent.Base.{
  ℕ, ◌+◌, Bool, true, false, not, ◌&&◌, ◌||◌, [], ◌∷◌, ◌≡◌, ◌⊎◌, inl, inr, ◌≢◌, ◌≤◌, refl, arith,
  Bytes, if◌then◌else◌, leb, ◌==◌, ==_iff, length, All, Bool-cases,
}

unfoldable pub is_digit : ℕ → Bool
is_digit c = leb b'0' c && leb c b'9'

unfoldable pub is_hex_digit : ℕ → Bool
is_hex_digit b = is_digit b || (leb b'a' b && leb b b'f') || (leb b'A' b && leb b b'F')

unfoldable pub all_bytes : (ℕ → Bool) → Bytes → Bool
all_bytes p [] = true
all_bytes p (c ∷ s) = if p c then all_bytes p s else false

unfoldable pub is_empty : Bytes → Bool
is_empty [] = true
is_empty (c ∷ s) = false

unfoldable pub is_all_digits : Bytes → Bool
is_all_digits s = all_bytes is_digit s && not (is_empty s)

unfoldable pub is_all_hex : Bytes → Bool
is_all_hex s = all_bytes is_hex_digit s && not (is_empty s)

-- The loop of `isDashedUUID` at position `i`.
unfoldable pub uuid_from : ℕ → Bytes → Bool
uuid_from i [] = true
uuid_from i (c ∷ s) =
    if i == 8 || i == 13 || i == 18 || i == 23
    then (if c == b'-' then uuid_from (i + 1) s else false)
    else if is_hex_digit c
    then uuid_from (i + 1) s
    else false

unfoldable pub is_dashed_uuid : Bytes → Bool
is_dashed_uuid s = if length s == 36 then uuid_from 0 s else false

unfoldable pub is_identifier_segment : Bytes → Bool
is_identifier_segment segment =
    if is_empty segment
    then false
    else if is_all_digits segment
    then true
    else if is_dashed_uuid segment
    then true
    else leb 16 (length segment) && is_all_hex segment

-- The number of times that a byte stands in a text.
abbrev pub occurrences : ℕ → Bytes → ℕ
occurrences b [] = 0
occurrences b (c ∷ s) = (if c == b then 1 else 0) + occurrences b s

abbrev pub IsDigit : ℕ → Type 0
IsDigit c = (b'0' ≤ c) × (c ≤ b'9')

abbrev pub IsHexDigit : ℕ → Type 0
IsHexDigit c = IsDigit c ⊎ ((b'a' ≤ c) × (c ≤ b'f')) ⊎ ((b'A' ≤ c) × (c ≤ b'F'))

all_bytes-All :
    (p : ℕ → Bool) (P : ℕ → Type 0) (s : Bytes)
    → ((c : ℕ) → p c ≡ true → P c)
    → all_bytes p s ≡ true
    → All P s
unfolding all_bytes
all_bytes-All p P [] f h = tt
all_bytes-All p P (c ∷ s) f h = elim (Bool-cases (p c)) [
  | inl e ↦ (f c e, all_bytes-All p P s f (rw (e, all_bytes) at h))
  | inr e ↦ cc (rw (e, all_bytes) at h)
]

hex_sound : (c : ℕ) → is_hex_digit c ≡ true → IsHexDigit c ⊎ (c ≡ b'-')
unfolding is_hex_digit
hex_sound c h = elim (Bool-cases (is_digit c)) [
  | inl e ↦ inl (inl (unfold is_digit in ground arith))
  | inr e ↦ inl (inr (ground arith))
]

uuid_step :
    (i c : ℕ) (s : Bytes)
    → uuid_from i (c ∷ s) ≡ true
    → ((c ≡ b'-') × (uuid_from (i + 1) s ≡ true))
      ⊎ ((is_hex_digit c ≡ true) × (uuid_from (i + 1) s ≡ true))
unfolding uuid_from
uuid_step i c s h = elim (Bool-cases (i == 8 || i == 13 || i == 18 || i == 23)) [
  | inl e ↦ elim (Bool-cases (c == b'-')) [
    | inl k ↦ inl ((==_iff c b'-').0 k, rw (e, k, uuid_from) at h)
    | inr k ↦ cc (rw (e, k, uuid_from) at h)
  ]
  | inr e ↦ elim (Bool-cases (is_hex_digit c)) [
    | inl k ↦ inr (k, rw (e, k, uuid_from) at h)
    | inr k ↦ cc (rw (e, k, uuid_from) at h)
  ]
]

uuid_from-All : (i : ℕ) (s : Bytes) → uuid_from i s ≡ true → All (λ c. IsHexDigit c ⊎ (c ≡ b'-')) s
uuid_from-All i [] h = tt
uuid_from-All i (c ∷ s) h = elim (uuid_step i c s h) [
  | inl e ↦ (inr e.0, uuid_from-All (i + 1) s e.1)
  | inr e ↦ (hex_sound c e.0, uuid_from-All (i + 1) s e.1)
]

weaken : (s : Bytes) → All IsDigit s → All (λ c. IsHexDigit c ⊎ (c ≡ b'-')) s
weaken [] h = tt
weaken (c ∷ s) h = (inl (inl h.0), weaken s h.1)

digits_sound : (s : Bytes) → is_all_digits s ≡ true → All IsDigit s
unfolding is_all_digits
digits_sound s h =
    all_bytes-All is_digit IsDigit s (λ c e. unfold is_digit in ground arith) (ground arith)

uuid_parts : (s : Bytes) → is_dashed_uuid s ≡ true → (length s ≡ 36) × (uuid_from 0 s ≡ true)
unfolding is_dashed_uuid
uuid_parts s h = (ground arith, ground arith)

hex_parts :
    (s : Bytes)
    → (leb 16 (length s) && is_all_hex s) ≡ true
    → (16 ≤ length s) × All (λ c. IsHexDigit c ⊎ (c ≡ b'-')) s
unfolding is_all_hex
hex_parts s h = (ground arith, all_bytes-All is_hex_digit _ s hex_sound (ground arith))

-- A segment that stands for a record is not empty and holds hexadecimal digits and dashes only; a
-- shorter one than 16 bytes is a number. So a word with any other letter is a page.
pub is_identifier_segment_lem :
    (s : Bytes)
    → is_identifier_segment s ≡ true
    → (s ≢ []) × All (λ c. IsHexDigit c ⊎ (c ≡ b'-')) s × (All IsDigit s ⊎ (16 ≤ length s))
unfolding is_identifier_segment
is_identifier_segment_lem s h = elim (Bool-cases (is_empty s)) [
  | inl e ↦ cc (rw (e, is_identifier_segment) at h)
  | inr full ↦
      let not_nil : s ≢ [] = λ e. unfold is_empty in (cc (rw e at full)) in
      elim (Bool-cases (is_all_digits s)) [
        | inl e ↦ (not_nil, weaken s (digits_sound s e), inl (digits_sound s e))
        | inr no_digits ↦ elim (Bool-cases (is_dashed_uuid s)) [
          | inl e ↦ (
            not_nil,
            uuid_from-All 0 s (uuid_parts s e).1,
            inr (omega (arith, (uuid_parts s e).0)),
          )
          | inr no_uuid ↦
              let (long, all) =
                hex_parts s (rw (full, no_digits, no_uuid, is_identifier_segment) at h) in
              (not_nil, all, inr long)
        ]
      ]
]

all_bytes_complete :
    (p : ℕ → Bool) (P : ℕ → Type 0) (s : Bytes)
    → ((c : ℕ) → P c → p c ≡ true)
    → All P s
    → all_bytes p s ≡ true
unfolding all_bytes
all_bytes_complete p P [] f h = refl
all_bytes_complete p P (c ∷ s) f h = rw (f c h.0) (all_bytes_complete p P s f h.1)

is_hex_digit_complete : (c : ℕ) → IsHexDigit c → is_hex_digit c ≡ true
unfolding is_hex_digit is_digit
is_hex_digit_complete c h = ground arith

-- Every number, and every run of at least 16 hexadecimal digits, stands for a record.
pub is_identifier_segment_complete :
    (s : Bytes)
    → s ≢ []
    → All IsDigit s ⊎ ((16 ≤ length s) × All IsHexDigit s)
    → is_identifier_segment s ≡ true
unfolding is_identifier_segment is_all_digits is_all_hex is_empty
is_identifier_segment_complete [] ne h = absurd (ne refl)
is_identifier_segment_complete (c ∷ s) ne (inl h) =
    rw (all_bytes_complete is_digit IsDigit (c ∷ s) (λ d k. unfold is_digit in ground arith) h)
is_identifier_segment_complete (c ∷ s) ne (inr (long, h)) =
    ground (arith, all_bytes_complete is_hex_digit IsHexDigit (c ∷ s) is_hex_digit_complete h)
