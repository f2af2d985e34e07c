-- ===== src/Nginx/Item/Cut.antt =====
-- Cutting a valid text at the start of a rune leaves a valid text, and a rune is at most four bytes.
use prostometrics_agent.Base.{
  ℕ, zero, suc, ◌≤◌, ◌<◌, true, [], ◌∷◌, ◌≡◌, refl, some, arith, Bytes, ◌⊎◌, inl, inr, Bool-cases,
  ◌==◌, ==_iff, Option-cases, length, take, get_or,
}
use prostometrics_agent.Nginx.Item.{
  lead, scan_utf8, valid_string, rune_start, max_item_bytes, back_to_rune,
}

-- At most three bytes follow, all of them continuation bytes, and the lead is none itself.
lead_range :
    (c left lo hi : ℕ)
    → lead c ≡ some (left, lo, hi)
    → (left ≤ 3) × (0x80 ≤ lo) × (hi ≤ 0xBF) × (rune_start c ≡ true)
unfolding lead rune_start
lead_range c left lo hi h = ground arith

scan-take :
    (s : Bytes) (n left lo hi : ℕ)
    → 0x80 ≤ lo
    → hi ≤ 0xBF
    → n < length s
    → rune_start (get_or s n 0) ≡ true
    → scan_utf8 left lo hi s ≡ true
    → scan_utf8 left lo hi (take n s) ≡ true
unfolding scan_utf8
scan-take [] n left lo hi l h lt r v = elim lt [ ]
scan-take (c ∷ s) zero zero lo hi l h lt r v = refl
scan-take (c ∷ s) zero (suc left) lo hi l h lt r v = absurd (unfold rune_start in ground arith)
scan-take (c ∷ s) (suc n) zero lo hi l h lt r v = elim (Option-cases (lead c)) [
  | inl e ↦ cc (rw (e, scan_utf8) at v)
  | inr ((left, lo', hi'), e) ↦
      let range = lead_range c left lo' hi' e in
      rw (e, scan_utf8)
        (scan-take s n left lo' hi' range.1 range.2 (omega arith) r (rw (e, scan_utf8) at v))
]
scan-take (c ∷ s) (suc n) (suc left) lo hi l h lt r v = ground (arith, scan-take s n left 0x80 0xBF)

scan_lead : (c : ℕ) (s : Bytes) (lo hi : ℕ) → scan_utf8 0 lo hi (c ∷ s) ≡ true → rune_start c ≡ true
unfolding scan_utf8
scan_lead c s lo hi v = elim (Option-cases (lead c)) [
  | inl e ↦ cc (rw (e, scan_utf8) at v)
  | inr ((left, lo', hi'), e) ↦ (lead_range c left lo' hi' e).3
]

scan_tail :
    (c : ℕ) (s : Bytes) (left lo hi : ℕ)
    → left ≤ 3
    → scan_utf8 left lo hi (c ∷ s) ≡ true
    → (left' : ℕ) × (lo' : ℕ) × (hi' : ℕ) × (left' ≤ 3) × (scan_utf8 left' lo' hi' s ≡ true)
unfolding scan_utf8
scan_tail c s zero lo hi small v = elim (Option-cases (lead c)) [
  | inl e ↦ cc (rw (e, scan_utf8) at v)
  | inr ((left, lo', hi'), e) ↦
      (left, lo', hi', (lead_range c left lo' hi' e).0, (rw (e, scan_utf8) at v))
]
scan_tail c s (suc left) lo hi small v = (left, 0x80, 0xBF, omega arith, ground arith)

scan_next :
    (c : ℕ) (s : Bytes) (left lo hi : ℕ)
    → scan_utf8 (suc left) lo hi (c ∷ s) ≡ true
    → scan_utf8 left 0x80 0xBF s ≡ true
unfolding scan_utf8
scan_next c s left lo hi v = ground arith

-- Of four bytes in a row one begins a rune.
four_follow :
    (a b c d : ℕ) (s : Bytes) (left lo hi : ℕ)
    → left ≤ 3
    → scan_utf8 left lo hi (a ∷ b ∷ c ∷ d ∷ s) ≡ true
    → (rune_start a ≡ true) ⊎ (rune_start b ≡ true) ⊎ (rune_start c ≡ true) ⊎ (rune_start d ≡ true)
four_follow a b c d s zero lo hi small v = inl (scan_lead a _ lo hi v)
four_follow a b c d s (suc zero) lo hi small v =
    inr (inl (scan_lead b _ _ _ (scan_next a _ _ lo hi v)))
four_follow a b c d s (suc (suc zero)) lo hi small v =
    inr (inr (inl (scan_lead c _ _ _ (scan_next b _ _ _ _ (scan_next a _ _ lo hi v)))))
four_follow a b c d s (suc (suc (suc zero))) lo hi small v = inr (
    inr (
      inr
        (scan_lead d _ _ _ (scan_next c _ _ _ _ (scan_next b _ _ _ _ (scan_next a _ _ lo hi v))))))
four_follow a b c d s (suc (suc (suc (suc left)))) lo hi small v = absurd (omega arith)

abbrev StartsAt : Bytes → ℕ → Type 0
StartsAt s j = rune_start (get_or s j 0) ≡ true

near_start :
    (s : Bytes) (j left lo hi : ℕ)
    → left ≤ 3
    → suc (suc (suc j)) < length s
    → scan_utf8 left lo hi s ≡ true
    → StartsAt s j ⊎ StartsAt s (suc j) ⊎ StartsAt s (suc (suc j)) ⊎ StartsAt s (suc (suc (suc j)))
near_start [] j left lo hi small lt v = elim lt [ ]
near_start (a ∷ b ∷ c ∷ d ∷ s) zero left lo hi small lt v = four_follow a b c d s left lo hi small v
near_start (a ∷ []) zero left lo hi small lt v = absurd (omega arith)
near_start (a ∷ b ∷ []) zero left lo hi small lt v = absurd (omega arith)
near_start (a ∷ b ∷ c ∷ []) zero left lo hi small lt v = absurd (omega arith)
near_start (a ∷ s) (suc j) left lo hi small lt v =
    let (left', lo', hi', small', v') = scan_tail a s left lo hi small v in
    near_start s j left' lo' hi' small' (omega arith) v'

pub back_to_rune-le : (s : Bytes) (n : ℕ) → back_to_rune s n ≤ n
unfolding back_to_rune
back_to_rune-le s zero = omega arith
back_to_rune-le s (suc n) = ground (arith, back_to_rune-le s n)

-- The loop stops at the nearest start.
le-back_to_rune : (s : Bytes) (n j : ℕ) → j ≤ n → StartsAt s j → j ≤ back_to_rune s n
unfolding back_to_rune
le-back_to_rune s zero j l r = l
le-back_to_rune s (suc n) j l r = elim (Bool-cases (rune_start (get_or s (suc n) 0))) [
  | inl e ↦ rw e l
  | inr e ↦ elim (Bool-cases (j == suc n)) [
    | inl same ↦ absurd (cc ((==_iff j (suc n)).0 same, e, r))
    | inr other ↦ rw e (le-back_to_rune s n j (ground arith) r)
  ]
]

back_to_rune-StartsAt : (s : Bytes) (n : ℕ) → 0 < back_to_rune s n → StartsAt s (back_to_rune s n)
unfolding back_to_rune
back_to_rune-StartsAt s zero h = absurd (omega arith)
back_to_rune-StartsAt s (suc n) h = elim (Bool-cases (rune_start (get_or s (suc n) 0))) [
  | inl e ↦ rw e e
  | inr e ↦ rw e (back_to_rune-StartsAt s n (rw (e, back_to_rune) at h))
]

-- The cut of a long valid text loses at most three bytes of the 256 and leaves a valid text.
pub shorten_long :
    (s : Bytes)
    → max_item_bytes < length s
    → valid_string s ≡ true
    → (253 ≤ back_to_rune s max_item_bytes)
      × (back_to_rune s max_item_bytes ≤ max_item_bytes)
      × (valid_string (take (back_to_rune s max_item_bytes) s) ≡ true)
unfolding valid_string
shorten_long s long v =
    let most = back_to_rune-le s max_item_bytes in
    let least : 253 ≤ back_to_rune s max_item_bytes =
      elim (near_start s 253 0 0x80 0xBF (omega arith) (omega arith) v) [
        | inl r ↦ le-back_to_rune s 256 253 (omega arith) r
        | inr (inl r) ↦ omega (arith, le-back_to_rune s 256 254 (omega arith) r)
        | inr (inr (inl r)) ↦ omega (arith, le-back_to_rune s 256 255 (omega arith) r)
        | inr (inr (inr r)) ↦ omega (arith, le-back_to_rune s 256 256 (omega arith) r)
      ] in
    (
      least,
      most,
      scan-take s _ 0 0x80 0xBF (omega arith) (omega arith) (omega arith)
          (back_to_rune-StartsAt s 256 (omega arith)) v,
    )
