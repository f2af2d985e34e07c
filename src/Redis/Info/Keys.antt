-- ===== src/Redis/Info/Keys.antt =====
-- The number of keys does not depend on the order in which the map of the reply is visited.
use mathlib.Core.List.{Perm, Permᴰ}
use mathlib.Core.Logic.{∥∥₁_elim}
use native.Mathlib.Nat.{ℕ_set}
use prostometrics_agent.Base.{
  ℕ, ◌+◌, ◌<◌, ◌%◌, ◌^◌, Bool, List, [], ◌∷◌, Option, none, some, Bytes, ◌≡◌, refl, ap, ap₂, ◌∙◌,
  arith,
}
use prostometrics_agent.Redis.Info.{
  add_uint, add_part, count_parts, count_database, count_from, count_keys,
}
use prostometrics_agent.Text.Number.{parse_uint}
use prostometrics_agent.Text.Search.{split, cut}

-- What is added stands apart from what was there.
add_uint-shift :
    (n k : ℕ) (p : ℕ × Bool) → add_uint ((n + k) % 2 ^ 64) p ≡ (n + add_uint k p) % 2 ^ 64
add_uint-shift n k (v, ok) = ground arith

add_part-shift :
    (n k : ℕ) (o : Option (Bytes × Bytes))
    → add_part ((n + k) % 2 ^ 64) o ≡ (n + add_part k o) % 2 ^ 64
add_part-shift n k none = refl
add_part-shift n k (some (name, raw)) = ground (arith, add_uint-shift n k (parse_uint raw))

count_parts-shift :
    (n k : ℕ) (parts : List Bytes)
    → count_parts ((n + k) % 2 ^ 64) parts ≡ (n + count_parts k parts) % 2 ^ 64
unfolding count_parts
count_parts-shift n k [] = refl
count_parts-shift n k (part ∷ parts) =
    ap (λ m. count_parts m parts) (add_part-shift n k (cut part b'='))
    ∙ count_parts-shift n (add_part k (cut part b'=')) parts

count_database-shift :
    (n k : ℕ) (e : Bytes × Bytes)
    → count_database ((n + k) % 2 ^ 64) e ≡ (n + count_database k e) % 2 ^ 64
count_database-shift n k (key, v) = ground (arith, count_parts-shift n k (split v b','))

-- What one entry adds.
count_database-add :
    (n : ℕ) (e : Bytes × Bytes)
    → n < 2 ^ 64
    → count_database n e ≡ (n + count_database 0 e) % 2 ^ 64
count_database-add n e h = ap (λ m. count_database m e) (omega arith) ∙ count_database-shift n 0 e

count_database-swap :
    (n : ℕ) (a b : Bytes × Bytes)
    → n < 2 ^ 64
    → count_database (count_database n a) b ≡ count_database (count_database n b) a
count_database-swap n a b h = omega (
  arith,
  count_database-add n a h,
  count_database-add n b h,
  count_database-add (count_database n a) b (omega (arith, count_database-add n a h)),
  count_database-add (count_database n b) a (omega (arith, count_database-add n b h)),
)

count_from-Permᴰ :
    {l m : List (Bytes × Bytes)}
    → Permᴰ l m
    → (n : ℕ) → n < 2 ^ 64
    → count_from n l ≡ count_from n m
unfolding count_from
count_from-Permᴰ Permᴰ.nil n h = refl
count_from-Permᴰ (Permᴰ.cons {a = a} {b = b} {l₁ = l} {l₂ = m} e p) n h =
    count_from-Permᴰ p (count_database n a) (omega (arith, count_database-add n a h))
    ∙ ap (λ x. count_from (count_database n x) m) e
count_from-Permᴰ (Permᴰ.swap {a = a} {b = b} {l = l} e f) n h =
    ap (λ k. count_from k l) (count_database-swap n a b h)
    ∙ ap₂ (λ x y. count_from (count_database (count_database n y) x) l) e f
count_from-Permᴰ (Permᴰ.trans p q) n h = count_from-Permᴰ p n h ∙ count_from-Permᴰ q n h

-- The number of keys that is reported is the same in whatever order the map is visited, its wrap at
-- 64 bits included.
pub count_keys-order : (l m : List (Bytes × Bytes)) → Perm l m → count_keys l ≡ count_keys m
unfolding count_keys
count_keys-order l m p =
    ∥∥₁_elim p (ℕ_set (count_keys l) (count_keys m)) (λ d. count_from-Permᴰ d 0 (omega arith))
