-- ===== src/Base/Parts.antt =====
-- Lists that come of another by leaving elements out, and lists of different strings.
use mathlib.Core.Bool.{false}
use mathlib.Core.List.{List, [], ◌∷◌, ◌++◌}
use mathlib.Core.Logic.{◌⊎◌, inl, inr}
use mathlib.Core.Path.{◌≡◌, refl}
use native.Mathlib.Omega.{arith}
use prostometrics_agent.Base.Strings.{Bytes, elem_bytes}

abbrev pub IsPart : List Bytes → List Bytes → Type 0
IsPart [] ys = Unit
IsPart (x ∷ xs) [] = ⊥
IsPart (x ∷ xs) (y ∷ ys) = ((x ≡ y) × IsPart xs ys) ⊎ IsPart (x ∷ xs) ys

pub IsPart-append :
    (xs ys us vs : List Bytes) → IsPart xs us → IsPart ys vs → IsPart (xs ++ ys) (us ++ vs)
IsPart-append [] [] us vs h k = tt
IsPart-append [] (y ∷ ys) [] vs h k = k
IsPart-append [] (y ∷ ys) (u ∷ us) vs h k = inr (IsPart-append [] (y ∷ ys) us vs tt k)
IsPart-append (x ∷ xs) ys [] vs h k = absurd h
IsPart-append (x ∷ xs) ys (u ∷ us) vs (inl (e, h)) k = inl (e, IsPart-append xs ys us vs h k)
IsPart-append (x ∷ xs) ys (u ∷ us) vs (inr h) k = inr (IsPart-append (x ∷ xs) ys us vs h k)

-- No two are the same.
abbrev pub AreDifferent : List Bytes → Type 0
AreDifferent [] = Unit
AreDifferent (x ∷ xs) = (elem_bytes x xs ≡ false) × AreDifferent xs

elem_bytes-IsPart :
    (x : Bytes) (xs ys : List Bytes)
    → IsPart xs ys
    → elem_bytes x ys ≡ false
    → elem_bytes x xs ≡ false
unfolding elem_bytes
elem_bytes-IsPart x [] ys h k = refl
elem_bytes-IsPart x (z ∷ xs) [] h k = absurd h
elem_bytes-IsPart x (z ∷ xs) (y ∷ ys) (inl (e, h)) k =
    ground (arith, elem_bytes-IsPart x xs ys h, e)
elem_bytes-IsPart x (z ∷ xs) (y ∷ ys) (inr h) k = elem_bytes-IsPart x (z ∷ xs) ys h (ground arith)

pub IsPart-AreDifferent : (xs ys : List Bytes) → IsPart xs ys → AreDifferent ys → AreDifferent xs
IsPart-AreDifferent [] ys h k = tt
IsPart-AreDifferent (x ∷ xs) [] h k = absurd h
IsPart-AreDifferent (x ∷ xs) (y ∷ ys) (inl (e, h)) (k, ks) =
    (elem_bytes-IsPart x xs ys h (rw e k), IsPart-AreDifferent xs ys h ks)
IsPart-AreDifferent (x ∷ xs) (y ∷ ys) (inr h) (k, ks) = IsPart-AreDifferent (x ∷ xs) ys h ks
