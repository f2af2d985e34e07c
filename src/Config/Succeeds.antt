-- ===== src/Config/Succeeds.antt =====
-- What holds of a result if there is one.
use prostometrics_agent.Base.{Option, none, some, ◌>>=◌}

abbrev pub Succeeds : {T : Type 0} → (T → Type 0) → Option T → Type 0
Succeeds P none = Unit
Succeeds P (some a) = P a

pub Succeeds-bind :
    {T U : Type 0} (P : T → Type 0) (Q : U → Type 0) (o : Option T) (f : T → Option U)
    → Succeeds P o
    → ((a : T) → P a → Succeeds Q (f a))
    → Succeeds Q (o >>= f)
Succeeds-bind P Q none f h k = tt
Succeeds-bind P Q (some a) f h k = k a h

pub follows :
    {T : Type 0} (P Q : T → Type 0) (o : Option T)
    → Succeeds P o
    → ((a : T) → P a → Q a)
    → Succeeds Q o
follows P Q none h k = tt
follows P Q (some a) h k = k a h
