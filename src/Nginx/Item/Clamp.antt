-- ===== src/Nginx/Item/Clamp.antt =====
-- `clampItem` against what the product accepts as the name of a row.
use prostometrics_agent.Base.{
  zero, suc, ◌≤◌, ◌<◌, true, false, [], ◌∷◌, ◌≡◌, sym, refl, arith, Bytes, ◌⊎◌, inl, inr,
  Bool-cases, ltb, length, length-take, All, All-take, ℕ, take, ltb→lt,
}
use prostometrics_agent.Nginx.Item.Cut.{back_to_rune-le, shorten_long}
use prostometrics_agent.Nginx.Item.{
  valid_string, max_item_bytes, back_to_rune, has_control, shorten, clamp_item,
}

-- What the client takes: at most 256 bytes, valid UTF-8, no control byte.
pub record IsItem (s : Bytes) : Type 0 where
  pub fits : length s ≤ max_item_bytes
  pub valid : valid_string s ≡ true
  pub clean : has_control s ≡ false

has_control-take : (n : ℕ) (s : Bytes) → has_control s ≡ false → has_control (take n s) ≡ false
unfolding has_control
has_control-take zero s h = refl
has_control-take (suc n) [] h = refl
has_control-take (suc n) (c ∷ s) h = ground (arith, has_control-take n s)

take-length : (s : Bytes) → take (length s) s ≡ s
take-length [] = refl
take-length (c ∷ s) = rw (take-length s)

shorten_lem : (s : Bytes) → (n : ℕ) × (shorten s ≡ take n s) × (length (shorten s) ≤ max_item_bytes)
shorten_lem s = elim (Bool-cases (ltb max_item_bytes (length s))) [
  | inl e ↦ (
    back_to_rune s max_item_bytes,
    rw e,
    rw e (omega (arith, length-take (back_to_rune s 256) s, back_to_rune-le s 256)),
  )
  | inr e ↦ (length s, rw (e, take-length s), rw e (ground arith))
]

-- Whatever `clampItem` is given, it returns the empty text or a beginning of the text that the
-- product accepts.
pub clamp_item_safe :
    (item : Bytes)
    → (clamp_item item ≡ [])
      ⊎ (IsItem (clamp_item item) × (n : ℕ) × (clamp_item item ≡ take n item))
unfolding clamp_item
clamp_item_safe [] = inl refl
clamp_item_safe (c ∷ s) = elim (Bool-cases (has_control (c ∷ s))) [
  | inl dirty ↦ rw dirty (inl refl)
  | inr clean ↦ elim (Bool-cases (valid_string (shorten (c ∷ s)))) [
    | inr bad ↦ rw (clean, bad) (inl refl)
    | inl good ↦
        let (n, cut, fits) = shorten_lem (c ∷ s) in
        rw (clean, good)
          (inr (
            record { fits = fits; valid = good; clean = rw cut (has_control-take n (c ∷ s) clean) },
            n,
            cut,
          ))
  ]
]

-- A text of valid UTF-8 without control bytes is kept whole up to 256 bytes, and otherwise loses at
-- most three bytes of the first 256, those of a rune that the limit would split: a text of up to 256
-- bytes is never cut.
pub clamp_item_keeps :
    (item : Bytes)
    → valid_string item ≡ true
    → has_control item ≡ false
    → (n : ℕ) × (clamp_item item ≡ take n item)
      × (((n ≡ length item) × (length item ≤ max_item_bytes))
          ⊎ ((max_item_bytes < length item) × (253 ≤ n) × (n ≤ max_item_bytes)))
unfolding clamp_item
clamp_item_keeps [] v h = (0, refl, inl (refl, omega arith))
clamp_item_keeps (c ∷ s) v h = elim (Bool-cases (ltb max_item_bytes (length (c ∷ s)))) [
  | inr short ↦
      rw (h, short, v) (length (c ∷ s), sym (take-length (c ∷ s)), inl (refl, ground arith))
  | inl long ↦
      let (most, least, good) = shorten_long (c ∷ s) (ltb→lt _ _ long) v in
      rw (h, long, good) (back_to_rune (c ∷ s) 256, refl, inr (ltb→lt _ _ long, most, least))
]

pub clamp_item-All : (P : ℕ → Type 0) (item : Bytes) → All P item → All P (clamp_item item)
clamp_item-All P item h = elim (clamp_item_safe item) [
  | inl e ↦ rw e tt
  | inr (good, n, e) ↦ rw e (All-take P n item h)
]

pub clamp_item-IsItem : (item : Bytes) → (clamp_item item ≡ []) ⊎ IsItem (clamp_item item)
clamp_item-IsItem item = elim (clamp_item_safe item) [ inl e ↦ inl e | inr e ↦ inr e.0 ]
