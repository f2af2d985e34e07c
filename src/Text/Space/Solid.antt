-- ===== src/Text/Space/Solid.antt =====
-- A text that starts and ends with plain ASCII is left as it is by `TrimSpace`.
use mathlib.Core.List.{reverse-append, reverse-reverse}
use prostometrics_agent.Base.{
  ℕ, ◌<◌, false, [], ◌∷◌, ◌++◌, ◌≡◌, refl, sym, ap, ◌∙◌, arith, reverse, Bytes, All,
}
use prostometrics_agent.Text.Space.{
  is_ascii_space, is_pair_space, is_wide_space, space_width, space_width_back, trim_with,
  trim_space,
}

-- ASCII, and no white space.
abbrev pub IsSolid : ℕ → Type 0
IsSolid c = (c < 0x80) × (is_ascii_space c ≡ false)

pub space_width-solid : (c : ℕ) (s : Bytes) → IsSolid c → space_width (c ∷ s) ≡ 0
unfolding space_width is_pair_space is_wide_space
space_width-solid c [] h = ground arith
space_width-solid c (d ∷ []) h = ground arith
space_width-solid c (d ∷ e ∷ s) h = ground arith

space_width_back-solid : (c : ℕ) (s : Bytes) → IsSolid c → space_width_back (c ∷ s) ≡ 0
unfolding space_width_back is_pair_space is_wide_space
space_width_back-solid c [] h = ground arith
space_width_back-solid c (d ∷ []) h = ground arith
space_width_back-solid c (d ∷ e ∷ s) h = ground arith

trim_with-stops :
    (width : Bytes → ℕ) (c : ℕ) (s : Bytes) → width (c ∷ s) ≡ 0 → trim_with width 0 (c ∷ s) ≡ c ∷ s
unfolding trim_with
trim_with-stops width c s h = rw h refl

pub trim_space-solid :
    (c d : ℕ) (s r : Bytes)
    → IsSolid c
    → IsSolid d
    → reverse (c ∷ s) ≡ d ∷ r
    → trim_space (c ∷ s) ≡ c ∷ s
unfolding trim_space
trim_space-solid c d s r hc hd e =
    rw
      (
        trim_with-stops space_width c s (space_width-solid c s hc),
        e,
        trim_with-stops space_width_back d r (space_width_back-solid d r hd),
      )
      (ap reverse (sym e) ∙ reverse-reverse (c ∷ s))

pub last-IsSolid :
    (d : ℕ) (s : Bytes)
    → All IsSolid (d ∷ s)
    → (e : ℕ) × (r : Bytes) × (reverse (d ∷ s) ≡ e ∷ r) × IsSolid e
last-IsSolid d [] (h, hs) = (d, [], refl, h)
last-IsSolid d (c ∷ s) (h, hs) =
    let (e, r, p, k) = last-IsSolid c s hs in
    (e, r ++ d ∷ [], reverse-append (d ∷ []) (c ∷ s) ∙ ap (λ x. x ++ d ∷ []) p, k)

pub trim_space-All_solid : (s : Bytes) → All IsSolid s → trim_space s ≡ s
unfolding trim_space trim_with
trim_space-All_solid [] h = refl
trim_space-All_solid (c ∷ s) h =
    let (e, r, p, k) = last-IsSolid c s h in trim_space-solid c e s r h.0 k p
