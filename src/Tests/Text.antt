-- ===== src/Tests/Text.antt =====
-- Runs of the functions of Go's standard library as they are modelled.
use prostometrics_agent.Base.{◌≡◌, refl, some, [], ◌∷◌, codes}
use prostometrics_agent.Base.Integers.{neg}
use prostometrics_agent.Text.Number.{itoa, parse_int}
use prostometrics_agent.Text.Space.{trim_space, fields}

trim_example : trim_space (codes " a b\t") ≡ codes "a b"
unfolding trim_space
trim_example = refl

fields_example : fields (codes "  GET  /x 1 ") ≡ codes "GET" ∷ codes "/x" ∷ codes "1" ∷ []
unfolding fields
fields_example = refl

trim_wide : trim_space (0xE2 ∷ 0x80 ∷ 0x89 ∷ 0x41 ∷ 0xC2 ∷ 0xA0 ∷ []) ≡ 0x41 ∷ []
unfolding trim_space
trim_wide = refl

itoa_example : itoa 40502 ≡ codes "40502"
unfolding itoa
itoa_example = refl

parse_int_example : parse_int (codes "-12") ≡ some (neg 12)
unfolding parse_int
parse_int_example = refl
