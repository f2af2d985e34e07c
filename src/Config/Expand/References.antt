-- ===== src/Config/Expand/References.antt =====
-- A reference in the configuration is replaced once, by the value that it names.
use prostometrics_agent.Base.{
  none, some, ◌⊎◌, inl, inr, ℕ, suc, Bool, true, false, ◌&&◌, List, [], ◌∷◌, ◌++◌, Bytes, ◌≡◌, refl,
  sym, ap, ◌∙◌, arith, ◌==◌, ◌===◌, ltb, length, Lacks, append_assoc, length-append,
  take-append_full,
}
use prostometrics_agent.Base.Maps.{lookup}
use prostometrics_agent.Config.Expand.{value_of, expand_text}
use prostometrics_agent.Text.Expand.{
  is_shell_special_var, in_braces, get_shell_name, replacement, expand_from, expand,
}
use prostometrics_agent.Text.Search.Appended.{index_byte-append}

-- A name of letters, digits and underlines whose first byte is no digit, as variables have.
abbrev pub IsName : Bytes → Type 0
IsName [] = ⊥
IsName (c ∷ s) = (is_shell_special_var c ≡ false) × Lacks b'}' (c ∷ s)

-- `${name}` with a text behind it.
abbrev pub reference : Bytes → Bytes → Bytes
reference name after = b'$' ∷ b'{' ∷ (name ++ b'}' ∷ after)

module _ (mapping : Bytes → Bytes) where
  expand_from-plain :
      (before after : Bytes)
      → Lacks b'$' before
      → expand_from mapping 0 (before ++ after) ≡ before ++ expand_from mapping 0 after
  unfolding expand_from
  expand_from-plain [] after h = refl
  expand_from-plain (c ∷ before) after (hc, h) =
      let plain : (c == b'$') ≡ false = ground arith in
      rw plain (ap (◌∷◌ c) (expand_from-plain before after h))

  expand_from-skip :
      (skipped after : Bytes)
      → expand_from mapping (length skipped) (skipped ++ after) ≡ expand_from mapping 0 after
  unfolding expand_from
  expand_from-skip [] after = refl
  expand_from-skip (c ∷ skipped) after = expand_from-skip skipped after

  and_false : (b : Bool) → (b && false) ≡ false
  and_false true = refl
  and_false false = refl

  positive_length : (n : ℕ) → ltb 0 (suc n) ≡ true
  positive_length n = ground arith

  braces_end : (s after : Bytes) → s ++ b'}' ∷ after ≡ (s ++ b'}' ∷ []) ++ after
  braces_end s after = sym (append_assoc s (b'}' ∷ []) after)

  closed : (s : Bytes) → suc (length s) ≡ length (s ++ b'}' ∷ [])
  closed s = omega (arith, length-append s (b'}' ∷ []))

  passed_over :
      (c : ℕ) (s after : Bytes)
      → expand_from mapping (suc (suc (suc (length s)))) (b'{' ∷ (c ∷ s) ++ b'}' ∷ after)
        ≡ expand_from mapping 0 after
  unfolding expand_from
  passed_over c s after = rw (braces_end s after) (
      ap (λ k. expand_from mapping k ((s ++ b'}' ∷ []) ++ after)) (closed s)
      ∙ expand_from-skip (s ++ b'}' ∷ []) after)

  name_of_reference :
      (c : ℕ) (s after : Bytes)
      → IsName (c ∷ s)
      → in_braces ((c ∷ s) ++ b'}' ∷ after) ≡ (c ∷ s, suc (suc (suc (length s))))
  name_of_reference c s after (hc, h) =
      rw
        (
          hc,
          and_false (ltb 1 (length ((c ∷ s) ++ b'}' ∷ after))),
          index_byte-append (c ∷ s) after b'}' h,
          take-append_full (c ∷ s) (b'}' ∷ after) (length (c ∷ s)) refl,
        )
        refl

  shell_name_of_brace : (s : Bytes) → get_shell_name (b'{' ∷ s) ≡ in_braces s
  unfolding get_shell_name
  shell_name_of_brace s = refl

  expand_from-dollar :
      (c : ℕ) (s name : Bytes) (w : ℕ)
      → get_shell_name (c ∷ s) ≡ (name, w)
      → expand_from mapping 0 (b'$' ∷ c ∷ s)
        ≡ replacement mapping (name, w) ++ expand_from mapping w (c ∷ s)
  unfolding expand_from
  expand_from-dollar c s name w h = rw (positive_length (length s), h) refl

  expand_from-reference :
      (c : ℕ) (s after : Bytes)
      → IsName (c ∷ s)
      → expand_from mapping 0 (reference (c ∷ s) after)
        ≡ mapping (c ∷ s) ++ expand_from mapping 0 after
  unfolding ◌===◌
  expand_from-reference c s after h =
      expand_from-dollar b'{' ((c ∷ s) ++ b'}' ∷ after) (c ∷ s) (suc (suc (suc (length s))))
        (shell_name_of_brace ((c ∷ s) ++ b'}' ∷ after) ∙ name_of_reference c s after h)
      ∙ ap (λ r. mapping (c ∷ s) ++ r) (passed_over c s after)

  expand_one :
      (before name after : Bytes)
      → Lacks b'$' before
      → IsName name
      → expand_from mapping 0 (before ++ reference name after)
        ≡ before ++ (mapping name ++ expand_from mapping 0 after)
  expand_one before [] after h n = absurd n
  expand_one before (c ∷ s) after h n =
      expand_from-plain before (reference (c ∷ s) after) h
      ∙ ap (λ r. before ++ r) (expand_from-reference c s after n)

-- The value of a variable: what the environment files define, and only where they do not define it what
-- the process has.
abbrev pub IsValue : (Bytes → Bytes) → List (Bytes × Bytes) → Bytes → Bytes → Type 0
IsValue getenv env name v =
    (lookup name env ≡ some v) ⊎ ((lookup name env ≡ none) × (getenv name ≡ v))

value_of-IsValue :
    (getenv : Bytes → Bytes) (env : List (Bytes × Bytes)) (name v : Bytes)
    → IsValue getenv env name v
    → value_of getenv env name ≡ v
value_of-IsValue getenv env name v (inl defined) = rw defined refl
value_of-IsValue getenv env name v (inr (missing, e)) = rw missing e

-- A reference in braces to a variable, behind a text without a dollar sign, is replaced by the value
-- that the environment files give it, or else by that of the process, once: the text before it and
-- the value stay as they are, dollar signs of the value included, and what follows is expanded as it
-- would be on its own. The name in the braces is not empty, holds no closing brace, and does not
-- begin with a digit or another special variable.
pub expand_text_lem :
    (getenv : Bytes → Bytes) (env : List (Bytes × Bytes)) (before name after v : Bytes)
    → Lacks b'$' before
    → IsName name
    → IsValue getenv env name v
    → expand_text getenv env (before ++ reference name after)
      ≡ before ++ (v ++ expand_text getenv env after)
unfolding expand_text expand
expand_text_lem getenv env before name after v h n k =
    rw (← value_of-IsValue getenv env name v k)
      (expand_one (value_of getenv env) before name after h n)
