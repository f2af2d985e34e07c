-- ===== src/Metrics/Sent.antt =====
-- What is among the calls that a collection makes.
use prostometrics_agent.Base.{List, [], ◌∷◌, ◌++◌, ◌≡◌, ◌⊎◌, inl, inr}
use prostometrics_agent.Metrics.{Emission}

abbrev pub In : Emission → List Emission → Type 0
In e [] = ⊥
In e (x ∷ xs) = (x ≡ e) ⊎ In e xs

pub In-right : (e : Emission) (xs ys : List Emission) → In e ys → In e (xs ++ ys)
In-right e [] ys h = h
In-right e (x ∷ xs) ys h = inr (In-right e xs ys h)

pub In-left : (e : Emission) (xs ys : List Emission) → In e xs → In e (xs ++ ys)
In-left e [] ys h = absurd h
In-left e (x ∷ xs) ys (inl p) = inl p
In-left e (x ∷ xs) ys (inr h) = inr (In-left e xs ys h)
