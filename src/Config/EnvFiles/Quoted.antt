-- ===== src/Config/EnvFiles/Quoted.antt =====
-- A quoted value is read as it was written.
use mathlib.Core.List.{reverse-append}
use prostometrics_agent.Base.{
  ℕ, suc, ◌-◌, true, false, ◌||◌, [], ◌∷◌, ◌++◌, ◌≡◌, ◌≢◌, refl, sym, ap, ◌∙◌, arith, Bytes, codes,
  ◌===◌, leb, length, take, drop, get_or, reverse, append_assoc, All, Lacks,
}
use prostometrics_agent.Config.EnvFiles.{defined, drop_export, unquote, define_line, read_env_line}
use prostometrics_agent.Text.Search.{has_prefix}
use prostometrics_agent.Text.Search.Appended.{index_byte-append}
use prostometrics_agent.Text.Space.{is_ascii_space, trim_space}
use prostometrics_agent.Text.Space.Solid.{IsSolid, trim_space-solid, trim_space-All_solid}

-- A byte of a name: ASCII without white space, and no sign of equality or hash.
abbrev pub IsNameByte : ℕ → Type 0
IsNameByte c = IsSolid c × (c ≢ b'=') × (c ≢ b'#')

-- A prefix that ends in white space, and holds no sign of equality, is not that of a definition.
not_prefix :
    (key rest p : Bytes) (t : ℕ)
    → All IsNameByte key
    → is_ascii_space t ≡ true
    → Lacks b'=' p
    → has_prefix (key ++ b'=' ∷ rest) (p ++ t ∷ []) ≡ false
unfolding has_prefix is_ascii_space
not_prefix [] rest [] t h k l = ground arith
not_prefix [] rest (q ∷ p) t h k l = ground arith
not_prefix (c ∷ key) rest [] t h k l = ground arith
not_prefix (c ∷ key) rest (q ∷ p) t (h, hs) k (l, ls) =
    ground (arith, not_prefix key rest p t hs k ls)

abbrev quoted : Bytes → Bytes
quoted value = 34 ∷ (value ++ 34 ∷ [])

get_or-last : (value : Bytes) (q d : ℕ) → get_or (value ++ q ∷ []) (length value) d ≡ q
get_or-last [] q d = refl
get_or-last (c ∷ value) q d = get_or-last value q d

take-all : (value ys : Bytes) → take (length value) (value ++ ys) ≡ value
take-all [] ys = refl
take-all (c ∷ value) ys = ap (◌∷◌ c) (take-all value ys)

length-snoc : (value : Bytes) (q : ℕ) → length (value ++ q ∷ []) ≡ suc (length value)
length-snoc [] q = refl
length-snoc (c ∷ value) q = ap suc (length-snoc value q)

long_enough : (n : ℕ) → leb 2 (suc (suc n)) ≡ true
long_enough n = ground arith

last_index : (n : ℕ) → suc (suc n) - 1 ≡ suc n
last_index n = omega arith

inner_length : (n : ℕ) → suc (suc n) - 2 ≡ n
inner_length n = omega arith

unquote-quoted : (value : Bytes) → unquote (quoted value) ≡ value
unfolding unquote
unquote-quoted value =
    rw
      (
        length-snoc value 34,
        long_enough (length value),
        last_index (length value),
        inner_length (length value),
        get_or-last value 34 0,
        take-all value (34 ∷ []),
      )
      refl

quoted-solid : (value : Bytes) → trim_space (quoted value) ≡ quoted value
unfolding is_ascii_space
quoted-solid value =
    trim_space-solid 34 34 (value ++ 34 ∷ []) (reverse (34 ∷ value)) (omega arith, refl)
      (omega arith, refl) (reverse-append (34 ∷ value) (34 ∷ []))

-- The line of a definition, its value in double quotes.
abbrev pub definition : Bytes → Bytes → Bytes
definition key value = key ++ b'=' ∷ 34 ∷ (value ++ 34 ∷ [])

definition-solid :
    (k : ℕ) (ks value : Bytes)
    → IsSolid k
    → trim_space (definition (k ∷ ks) value) ≡ definition (k ∷ ks) value
unfolding is_ascii_space
definition-solid k ks value h =
    trim_space-solid k 34 (definition ks value) (reverse (k ∷ (ks ++ b'=' ∷ 34 ∷ value))) h
      (omega arith, refl)
      (ap reverse (sym (append_assoc (k ∷ ks) (b'=' ∷ 34 ∷ value) (34 ∷ [])))
        ∙ reverse-append (k ∷ (ks ++ b'=' ∷ 34 ∷ value)) (34 ∷ []))

names-Lacks : (key : Bytes) → All IsNameByte key → Lacks b'=' key
names-Lacks [] h = tt
names-Lacks (c ∷ key) (h, hs) = (h.1, names-Lacks key hs)

names-IsSolid : (key : Bytes) → All IsNameByte key → All IsSolid key
names-IsSolid [] h = tt
names-IsSolid (c ∷ key) (h, hs) = (h.0, names-IsSolid key hs)

drop-name : (key rest : Bytes) (b : ℕ) → drop (suc (length key)) (key ++ b ∷ rest) ≡ rest
drop-name [] rest b = refl
drop-name (c ∷ key) rest b = drop-name key rest b

export-Lacks : Lacks b'=' (codes "export")
export-Lacks =
    (omega arith, (omega arith, (omega arith, (omega arith, (omega arith, (omega arith, tt))))))

drop_export-definition :
    (key value : Bytes)
    → All IsNameByte key
    → drop_export (definition key value) ≡ definition key value
unfolding drop_export is_ascii_space
drop_export-definition key value h =
    rw
      (
        not_prefix key (quoted value) (codes "export") 32 h refl export-Lacks,
        not_prefix key (quoted value) (codes "export") 9 h refl export-Lacks,
      )
      refl

define_line-definition :
    (k : ℕ) (ks value : Bytes)
    → All IsNameByte (k ∷ ks)
    → define_line (definition (k ∷ ks) value) ≡ defined (k ∷ ks) value
unfolding ◌===◌
define_line-definition k ks value h =
    rw
      (
        index_byte-append (k ∷ ks) (quoted value) b'=' (names-Lacks (k ∷ ks) h),
        take-all (k ∷ ks) (b'=' ∷ quoted value),
        drop-name (k ∷ ks) (quoted value) b'=',
        trim_space-All_solid (k ∷ ks) (names-IsSolid (k ∷ ks) h),
        quoted-solid value,
        unquote-quoted value,
      )
      refl

not_skipped :
    (k : ℕ) (s : Bytes) → k ≢ b'#' → (((k ∷ s) === []) || has_prefix (k ∷ s) (codes "#")) ≡ false
unfolding ◌===◌ has_prefix
not_skipped k s h = ground arith

-- One line that defines a value in double quotes gives the name and the value that were written. The
-- name is of ASCII without white space, and has no sign of equality and no hash. The bytes of the
-- value do not matter to the loop's body; the split of the file leaves it no line feed.
pub read_env_line-definition :
    (k : ℕ) (ks value : Bytes)
    → All IsNameByte (k ∷ ks)
    → read_env_line (definition (k ∷ ks) value) ≡ defined (k ∷ ks) value
unfolding read_env_line
read_env_line-definition k ks value h =
    rw
      (
        definition-solid k ks value h.0.0,
        not_skipped k (ks ++ b'=' ∷ quoted value) h.0.2,
        drop_export-definition (k ∷ ks) value h,
      )
      (define_line-definition k ks value h)
