-- ===== src/Base/Results.antt =====
-- Go errors as values, and the results of functions that return `(T, error)`.
use mathlib.Core.Path.{◌≡◌, refl}
use mathlib.Core.Bool.{Bool, true, false}
use mathlib.Core.Logic.{◌⊎◌, inl, inr}
use mathlib.Core.List.{List, [], ◌∷◌}
use native.Mathlib.Omega.{arith}
use ting_boundless.Base.Texts.{Text}

-- The errors that the code tells apart by `errors.Is` and `errors.As`; `wrapped` is
-- `fmt.Errorf("…: %w", err)`, through which both see the error inside.
pub data Err : Type 0 where
  no_rows : Err  -- pgx.ErrNoRows
  unique_violation : Err  -- a pgconn.PgError of that code
  failure : Text → Err
  wrapped : Text → Err → Err

-- `errors.Is(err, pgx.ErrNoRows)`.
unfoldable pub is_no_rows : Err → Bool
is_no_rows no_rows = true
is_no_rows (wrapped msg e) = is_no_rows e
is_no_rows _ = false

pub data Result {ℓ} (A : Type ℓ) : Type ℓ where
  ok : A → Result A
  err : Err → Result A

infixl 5 ◌>>=◌
abbrev pub ◌>>=◌ {ℓ κ} : {A : Type ℓ} {B : Type κ} → Result A → (A → Result B) → Result B
ok a >>= f = f a
err e >>= f = err e

-- `err != nil`.
abbrev pub is_err {ℓ} : {A : Type ℓ} → Result A → Bool
is_err (ok _) = false
is_err (err _) = true

-- A chain that succeeds has a first step that succeeds, and then its second one.
module _ {ℓ κ} {X : Type ℓ} {Y : Type κ} where
  pub >>=-eq-ok :
      (first : Result X) (next : X → Result Y) {y : Y} (whole : (first >>= next) ≡ ok y)
      → (x : X) × (first ≡ ok x) × (next x ≡ ok y)
  >>=-eq-ok (err stop) next whole = cc
  >>=-eq-ok (ok x) next whole = (x, refl, whole)

pub Result-cases {ℓ} :
    {A : Type ℓ} (r : Result A) → ((a : A) × (r ≡ ok a)) ⊎ ((e : Err) × (r ≡ err e))
Result-cases (ok a) = inl (a, refl)
Result-cases (err e) = inr (e, refl)

-- Whether a statement or a request is carried out and answered, is not carried out, or is carried out
-- and its answer lost.
pub data Fate : Type 0 where
  answered refused lost : Fate

-- The fates of the next calls, one after another; after the last one, calls are answered.
abbrev pub next_fate : List Fate → Fate
next_fate [] = answered
next_fate (f ∷ _) = f

-- What a call returns, from the state before it and from what it would return and leave; the error is
-- the one of a call without an answer.
abbrev pub carried_out {ℓ κ} :
    {A : Type ℓ} {S : Type κ} → Fate → Err → S → Result A × S → Result A × S
carried_out answered e s r = r
carried_out refused e s r = (err e, s)
carried_out lost e s (r, t) = (err e, t)

pub Fate-cases : (f : Fate) → (f ≡ answered) ⊎ (f ≡ refused) ⊎ (f ≡ lost)
Fate-cases answered = inl refl
Fate-cases refused = inr (inl refl)
Fate-cases lost = inr (inr refl)

pub carried_out-answered {ℓ κ} :
    {A : Type ℓ} {S : Type κ} (f : Fate) (e : Err) (s : S) (r : Result A × S)
    → f ≡ answered
    → carried_out f e s r ≡ r
carried_out-answered answered e s r h = refl
carried_out-answered refused e s r h = absurd (ground arith)
carried_out-answered lost e s r h = absurd (ground arith)

pub ok_eq {ℓ} : {A : Type ℓ} {a b : A} → ok a ≡ ok b → a ≡ b
ok_eq h = ground (arith, h)
