-- ===== src/Text/Space/Words.antt =====
-- `Fields` of solid words with single spaces between them.
use mathlib.Core.List.{reverse-append}
use prostometrics_agent.Base.{
  ℕ, List, [], ◌∷◌, ◌++◌, ◌≡◌, refl, sym, ap, ◌∙◌, arith, Bytes, All, Bool, true, false, not, ◌&&◌,
  ltb, ◌===◌, All-append, Lacks, ◌≢◌, reverse, append_assoc, append-nil,
}
use prostometrics_agent.Text.Search.{join}
use prostometrics_agent.Text.Space.{
  trim_space, flush, fields_from, fields, space_width, is_ascii_space,
}
use prostometrics_agent.Text.Space.Solid.{
  IsSolid, space_width-solid, last-IsSolid, trim_space-solid,
}

space_width-blank : (rest : Bytes) → space_width (32 ∷ rest) ≡ 1
unfolding space_width is_ascii_space
space_width-blank [] = refl
space_width-blank (c ∷ []) = refl
space_width-blank (c ∷ d ∷ s) = refl

fields_from-word :
    (tok cur rest : Bytes)
    → All IsSolid tok
    → fields_from 0 cur (tok ++ 32 ∷ rest) ≡ flush (cur ++ tok) ++ fields_from 0 [] rest
unfolding fields_from
fields_from-word [] cur rest h = rw (space_width-blank rest, append-nil cur) refl
fields_from-word (c ∷ tok) cur rest (h, hs) = rw (space_width-solid c (tok ++ 32 ∷ rest) h) (
    fields_from-word tok (cur ++ c ∷ []) rest hs
    ∙ ap (λ x. flush x ++ fields_from 0 [] rest) (append_assoc cur (c ∷ []) tok))

fields_from-last : (tok cur : Bytes) → All IsSolid tok → fields_from 0 cur tok ≡ flush (cur ++ tok)
unfolding fields_from
fields_from-last [] cur h = ap flush (sym (append-nil cur))
fields_from-last (c ∷ tok) cur (h, hs) =
    rw (space_width-solid c tok h)
      (fields_from-last tok (cur ++ c ∷ []) hs ∙ ap flush (append_assoc cur (c ∷ []) tok))

pub fields-word :
    (c : ℕ) (tok rest : Bytes)
    → All IsSolid (c ∷ tok)
    → fields ((c ∷ tok) ++ 32 ∷ rest) ≡ (c ∷ tok) ∷ fields rest
unfolding fields
fields-word c tok rest h = fields_from-word (c ∷ tok) [] rest h

pub fields-last : (c : ℕ) (tok : Bytes) → All IsSolid (c ∷ tok) → fields (c ∷ tok) ≡ (c ∷ tok) ∷ []
unfolding fields
fields-last c tok h = fields_from-last (c ∷ tok) [] h

-- A word is not empty and solid.
abbrev pub IsWord : Bytes → Type 0
IsWord w = (w ≢ []) × All IsSolid w

-- The words of a text are read back from it.
pub fields-join :
    (w : Bytes) (ws : List Bytes) → All IsWord (w ∷ ws) → fields (join (w ∷ ws) 32) ≡ w ∷ ws
unfolding join
fields-join [] ws h = absurd (h.0.0 refl)
fields-join (c ∷ tok) [] h = fields-last c tok h.0.1
fields-join (c ∷ tok) (v ∷ ws) h =
    fields-word c tok (join (v ∷ ws) 32) h.0.1 ∙ ap (◌∷◌ (c ∷ tok)) (fields-join v ws h.1)

-- The last byte of words is solid.
join-ends :
    (w : Bytes) (ws : List Bytes)
    → All IsWord (w ∷ ws)
    → (e : ℕ) × (r : Bytes) × (reverse (join (w ∷ ws) 32) ≡ e ∷ r) × IsSolid e
unfolding join
join-ends [] ws h = absurd (h.0.0 refl)
join-ends (c ∷ tok) [] h = last-IsSolid c tok h.0.1
join-ends (c ∷ tok) (v ∷ ws) h =
    let (e, r, p, k) = join-ends v ws h.1 in
    (
      e,
      (r ++ 32 ∷ []) ++ reverse (c ∷ tok),
      reverse-append (c ∷ tok) (32 ∷ join (v ∷ ws) 32)
          ∙ ap (λ x. x ++ reverse (c ∷ tok))
              (reverse-append (32 ∷ []) (join (v ∷ ws) 32) ∙ ap (λ x. x ++ 32 ∷ []) p),
      k,
    )

pub trim_space-join :
    (w : Bytes) (ws : List Bytes)
    → All IsWord (w ∷ ws)
    → trim_space (join (w ∷ ws) 32) ≡ join (w ∷ ws) 32
unfolding join
trim_space-join [] ws h = absurd (h.0.0 refl)
trim_space-join (c ∷ tok) [] h =
    let (e, r, p, k) = join-ends (c ∷ tok) [] h in trim_space-solid c e tok r h.0.1.0 k p
trim_space-join (c ∷ tok) (v ∷ ws) h =
    let (e, r, p, k) = join-ends (c ∷ tok) (v ∷ ws) h in
    trim_space-solid c e (tok ++ 32 ∷ join (v ∷ ws) 32) r h.0.1.0 k p

solid-Lacks : (s : Bytes) → All IsSolid s → Lacks 10 s
unfolding is_ascii_space
solid-Lacks [] h = tt
solid-Lacks (c ∷ s) (h, hs) = (ground arith, solid-Lacks s hs)

pub join-Lacks : (w : Bytes) (ws : List Bytes) → All IsWord (w ∷ ws) → Lacks 10 (join (w ∷ ws) 32)
unfolding join
join-Lacks w [] h = solid-Lacks w h.0.1
join-Lacks w (v ∷ ws) h =
    All-append (λ c. c ≢ 10) w (32 ∷ join (v ∷ ws) 32) (solid-Lacks w h.0.1)
      (omega arith, join-Lacks v ws h.1)

pub join-not_empty :
    (w : Bytes) (ws : List Bytes) → All IsWord (w ∷ ws) → (join (w ∷ ws) 32 === []) ≡ false
unfolding join ◌===◌
join-not_empty [] ws h = absurd (h.0.0 refl)
join-not_empty (c ∷ tok) [] h = refl
join-not_empty (c ∷ tok) (v ∷ ws) h = refl

-- A test for words.
unfoldable pub all_solid : Bytes → Bool
all_solid [] = true
all_solid (c ∷ s) = ltb c 0x80 && not (is_ascii_space c) && all_solid s

abbrev pub is_word : Bytes → Bool
is_word [] = false
is_word (c ∷ s) = all_solid (c ∷ s)

all_solid_sound : (s : Bytes) → all_solid s ≡ true → All IsSolid s
unfolding all_solid
all_solid_sound [] h = tt
all_solid_sound (c ∷ s) h = (ground arith, all_solid_sound s (ground arith))

pub is_word_lem : (w : Bytes) → is_word w ≡ true → IsWord w
is_word_lem [] h = absurd (ground arith)
is_word_lem (c ∷ s) h = ((λ e. cc), all_solid_sound (c ∷ s) h)
