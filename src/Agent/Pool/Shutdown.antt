-- ===== src/Agent/Pool/Shutdown.antt =====
-- The pool can always be shut down: no interleaving leads to a deadlock.
use prostometrics_agent.Agent.Pool.{
  Phase, idle, waiting, collecting, stopped, Pool, Step, give_up, finish, cancel, leave, close,
  Reach, here, next,
}
use prostometrics_agent.Base.{
  ℕ, suc, ◌+◌, ◌*◌, ◌≤◌, true, List, [], ◌∷◌, ◌++◌, ◌≡◌, refl, some, arith, length, get_elem?, set,
  All, All-append, append_assoc, append-nil, ap, ◌∙◌,
}

-- The number of steps.
abbrev pub steps : {p q : Pool} → Reach p q → ℕ
steps here = 0
steps (next r s) = suc (steps r)

module _ {A : Type 0} where
  get_elem?-middle : (xs ys : List A) (x : A) → get_elem? (xs ++ x ∷ ys) (length xs) ≡ some x
  get_elem?-middle [] ys x = refl
  get_elem?-middle (z ∷ xs) ys x = get_elem?-middle xs ys x

  set-middle : (xs ys : List A) (x y : A) → set (xs ++ x ∷ ys) (length xs) y ≡ xs ++ y ∷ ys
  set-middle [] ys x y = refl
  set-middle (z ∷ xs) ys x y = ap (◌∷◌ z) (set-middle xs ys x y)

-- States that a cancelled pool gets to from `p`, with their phases and a bound on the steps.
record Gets (p : Pool) (phases : List Phase) (n : ℕ) : Type 0 where
  last : Pool
  run : Reach p last
  few : steps run ≤ n
  phases_are : last.phases ≡ phases
  is_cancelled : last.cancelled ≡ true

within : {p : Pool} {phases : List Phase} (n m : ℕ) → n ≤ m → Gets p phases n → Gets p phases m
within n m h g = record {
  last = g.last;
  run = g.run;
  few = omega (arith, g.few);
  phases_are = g.phases_are;
  is_cancelled = g.is_cancelled;
}

module _ (before after : List Phase) where
  abbrev at : Phase → List Phase
  at x = before ++ x ∷ after

  here_is :
      (phases : List Phase) (x : Phase) → phases ≡ at x → get_elem? phases (length before) ≡ some x
  here_is phases x e = rw e (get_elem?-middle before after x)

  now_is : (phases : List Phase) (x y : Phase) → phases ≡ at x → set phases (length before) y ≡ at y
  now_is phases x y e = rw e (set-middle before after x y)

  -- The goroutine behind the first ones takes a step of its own.
  moved :
      {p : Pool} (n : ℕ) (x y : Phase) (g : Gets p (at x) n) (q : Pool)
      → Step g.last q
      → q.phases ≡ set g.last.phases (length before) y
      → q.cancelled ≡ true
      → Gets p (at y) (n + 1)
  moved n x y g q step same cancelled = record {
    last = q;
    run = next g.run step;
    few = omega (arith, g.few);
    phases_are = same ∙ now_is g.last.phases x y g.phases_are;
    is_cancelled = cancelled;
  }

  leave_one : {p : Pool} (n : ℕ) → Gets p (at idle) n → Gets p (at stopped) (n + 1)
  leave_one n g =
      moved n idle stopped g _
        (leave (length before) (here_is g.last.phases idle g.phases_are) g.is_cancelled) refl
        g.is_cancelled

  stop_one : {p : Pool} (n : ℕ) (x : Phase) → Gets p (at x) n → Gets p (at stopped) (n + 2)
  stop_one n idle g = within (n + 1) (n + 2) (omega arith) (leave_one n g)
  stop_one n waiting g =
      let gave_up =
        moved n waiting idle g _
          (give_up (length before) (here_is g.last.phases waiting g.phases_are)) refl
          g.is_cancelled in
      within (n + 1 + 1) (n + 2) (omega arith) (leave_one (n + 1) gave_up)
  stop_one n collecting g =
      let finished =
        moved n collecting idle g _
          (finish (length before) (here_is g.last.phases collecting g.phases_are)) refl
          g.is_cancelled in
      within (n + 1 + 1) (n + 2) (omega arith) (leave_one (n + 1) finished)
  stop_one n stopped g = within n (n + 2) (omega arith) g

stop_each :
    {p : Pool} (n : ℕ) (before after : List Phase)
    → All (λ phase. phase ≡ stopped) before
    → Gets p (before ++ after) n
    → (phases : List Phase) × All (λ phase. phase ≡ stopped) phases
      × Gets p phases (n + 2 * length after)
stop_each n before [] h g = (before, h, within n _ (omega arith) (rw (append-nil) at g))
stop_each n before (x ∷ after) h g =
    let (phases, all, rest) =
      stop_each (n + 2) (before ++ stopped ∷ []) after
        (All-append (λ phase. phase ≡ stopped) before (stopped ∷ []) h (refl, tt))
        (rw (append_assoc before (stopped ∷ []) after) (stop_one before after n x g)) in
    (phases, all, within _ _ (omega arith) rest)

-- From every state of the pool, whatever its goroutines were doing, the agent can be shut down: there
-- are at most two steps for each collector, and two more, after which the pool is closed and each
-- goroutine has returned. So no interleaving ends in a deadlock, as long as a collection returns.
pub shutdown_lem :
    (p : Pool)
    → (q : Pool) × (r : Reach p q) × (q.closed ≡ true)
      × All (λ phase. phase ≡ stopped) q.phases
      × (steps r ≤ 2 * length p.phases + 2)
shutdown_lem p =
    let first : Gets p p.phases 1 = record {
      last = record p { cancelled = true };
      run = next here cancel;
      few = omega arith;
      phases_are = refl;
      is_cancelled = refl;
    } in
    let (phases, all, g) = stop_each 1 [] p.phases tt first in
    let all_stopped = rw (← g.phases_are) at all in
    (
      record (g.last) { closed = true },
      next g.run (close g.is_cancelled all_stopped),
      refl,
      all_stopped,
      omega (arith, g.few),
    )
