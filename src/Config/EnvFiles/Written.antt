-- ===== src/Config/EnvFiles/Written.antt =====
-- A file of definitions is read as it was written.
use prostometrics_agent.Base.{
  ℕ, false, List, [], ◌∷◌, ◌++◌, ◌≡◌, ◌≢◌, refl, ap, ◌∙◌, arith, Option, none, some, Bytes, ◌===◌,
  All, All-append, Lacks, if◌then◌else◌,
}
use prostometrics_agent.Base.Maps.{insert, lookup, lookup-insert}
use prostometrics_agent.Config.EnvFiles.{
  EnvFile, contents, EnvLine, read_env_line, read_env_lines, load_from, load_env_files,
}
use prostometrics_agent.Config.EnvFiles.Quoted.{IsNameByte, definition, read_env_line-definition}
use prostometrics_agent.Text.Search.{split, split_from}
use prostometrics_agent.Text.Search.Appended.{split_from-append}
use prostometrics_agent.Text.Space.{is_ascii_space, trim_space}
use prostometrics_agent.Text.Space.Solid.{trim_space-All_solid}

-- One definition to a line, the value in double quotes.
abbrev pub written : List (Bytes × Bytes) → Bytes
written [] = []
written ((key, value) ∷ defs) = definition key value ++ 10 ∷ written defs

-- The value of the last definition of a name, or the one it had.
abbrev pub last_value : Bytes → List (Bytes × Bytes) → Option Bytes → Option Bytes
last_value name [] had = had
last_value name ((key, value) ∷ defs) had =
    last_value name defs (if key === name then some value else had)

-- A name that can be written, and a value without a line feed.
abbrev pub IsWritable : Bytes × Bytes → Type 0
IsWritable (key, value) = (key ≢ []) × All IsNameByte key × Lacks 10 value

name_byte : (c : ℕ) → IsNameByte c → c ≢ 10
unfolding is_ascii_space
name_byte c h = ground arith

name-Lacks : (key : Bytes) → All IsNameByte key → Lacks 10 key
name-Lacks [] h = tt
name-Lacks (c ∷ key) (h, hs) = (name_byte c h, name-Lacks key hs)

definition-Lacks :
    (key value : Bytes) → All IsNameByte key → Lacks 10 value → Lacks 10 (definition key value)
definition-Lacks key value h l =
    All-append (λ c. c ≢ 10) key _ (name-Lacks key h)
      (omega arith, (omega arith, All-append (λ c. c ≢ 10) value (34 ∷ []) l (omega arith, tt)))

added : List (Bytes × Bytes) → List (Bytes × Bytes) → List (Bytes × Bytes)
added [] env = env
added ((key, value) ∷ defs) env = added defs (insert key value env)

read_env_line-written :
    (key value : Bytes)
    → IsWritable (key, value)
    → read_env_line (definition key value) ≡ EnvLine.defined key value
read_env_line-written [] value (some_byte, h, l) = absurd (some_byte refl)
read_env_line-written (k ∷ ks) value (some_byte, h, l) = read_env_line-definition k ks value h

split_from-empty : split_from 10 [] [] ≡ [] ∷ []
unfolding split_from
split_from-empty = refl

blank_line : read_env_line [] ≡ EnvLine.skipped
unfolding read_env_line ◌===◌
blank_line = rw (trim_space-All_solid [] tt) refl

===-false : (s : Bytes) → s ≢ [] → (s === []) ≡ false
unfolding ◌===◌
===-false [] h = absurd (h refl)
===-false (c ∷ s) h = refl

lines-defined :
    (line key value : Bytes) (lines : List Bytes) (env : List (Bytes × Bytes))
    → read_env_line line ≡ EnvLine.defined key value
    → read_env_lines (line ∷ lines) env ≡ read_env_lines lines (insert key value env)
unfolding read_env_lines
lines-defined line key value lines env h = rw (h, read_env_lines) refl

lines-blank : (env : List (Bytes × Bytes)) → read_env_lines ([] ∷ []) env ≡ some env
unfolding read_env_lines
lines-blank env = rw (blank_line, read_env_lines) refl

lines-written :
    (defs env : List (Bytes × Bytes))
    → All IsWritable defs
    → read_env_lines (split_from 10 [] (written defs)) env ≡ some (added defs env)
unfolding added
lines-written [] env h = rw split_from-empty (lines-blank env)
lines-written ((key, value) ∷ defs) env (h, hs) =
    rw
      (split_from-append 10 [] (definition key value) (written defs)
        (definition-Lacks key value h.1 h.2))
      (lines-defined _ key value _ env (read_env_line-written key value h)
        ∙ lines-written defs (insert key value env) hs)

lookup-added :
    (name : Bytes) (defs env : List (Bytes × Bytes))
    → lookup name (added defs env) ≡ last_value name defs (lookup name env)
unfolding added
lookup-added name [] env = refl
lookup-added name ((key, value) ∷ defs) env =
    lookup-added name defs (insert key value env)
    ∙ ap (last_value name defs) (lookup-insert key name value env)

lookup-empty : (name : Bytes) → lookup {V = Bytes} name [] ≡ none
unfolding lookup
lookup-empty name = refl

module _ (expand_home : Bytes → Bytes) (read_file : Bytes → EnvFile) where
  load-written :
      (path : Bytes) (defs : List (Bytes × Bytes))
      → expand_home (trim_space path) ≢ []
      → read_file (expand_home (trim_space path)) ≡ contents (written defs)
      → All IsWritable defs
      → load_env_files expand_home read_file (path ∷ []) ≡ some (added defs [])
  unfolding load_env_files load_from split
  load-written path defs named read h =
      rw
        (
          ===-false (expand_home (trim_space path)) named,
          read,
          lines-written defs [] h,
          load_env_files,
          load_from,
          split,
        )
        refl

  -- A file that holds one definition to a line, the values in double quotes, is read back: every
  -- name has the value of its last definition, whatever bytes but a line feed the value holds, white
  -- space and quotes among them, and a name without a definition has none. A name is of ASCII
  -- without white space, is not empty, and has no sign of equality and no hash.
  pub load_env_files-written :
      (path : Bytes) (defs : List (Bytes × Bytes)) (name : Bytes)
      → expand_home (trim_space path) ≢ []
      → read_file (expand_home (trim_space path)) ≡ contents (written defs)
      → All IsWritable defs
      → (env : List (Bytes × Bytes)) × (load_env_files expand_home read_file (path ∷ []) ≡ some env)
        × (lookup name env ≡ last_value name defs none)
  load_env_files-written path defs name named read h = (
    added defs [],
    load-written path defs named read h,
    lookup-added name defs [] ∙ ap (last_value name defs) (lookup-empty name),
  )
