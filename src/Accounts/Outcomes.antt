-- ===== src/Accounts/Outcomes.antt =====
-- What a statement of the identity store, and a chain of them, leaves behind.
use ting_boundless.Accounts.Growth.{
  Grows-Maps, link_step, writes-Grows, here, Maps, Grows-trans, Grows,
}
use ting_boundless.Base.{
  Bool, drop, Text, Option, if◌then◌else◌, false, true, subst, arith, ◌≡◌, refl, some, none,
}
use ting_boundless.Base.Results.{answered, refused, lost, Fate, Err, Result, err, ok}
use ting_boundless.Accounts.{
  link_row, writes, Entry, find_user, turn_of, Store, run, finished, link_identity, with_user,
  lookup_user_id, found, Tables,
}
use ting_boundless.Accounts.Validity.{Grows-IsValid, Maps-HasUser, IsValid}

-- The tables have grown from the first ones, and what succeeds has the property.
abbrev pub Outcome : {A : Type 0} → (A → Tables → Type 0) → Tables → Result A × Store → Type 0
Outcome {A} Q t r = Grows t r.1.tables × ((a : A) → r.0 ≡ ok a → Q a r.1.tables)

module _ {A : Type 0} (Q : A → Tables → Type 0) where
  finished-Outcome :
      (fate : Fate) (s : Store) (t u : Tables) (r : Result A × Tables)
      → Grows t u
      → Grows u r.1 × ((a : A) → r.0 ≡ ok a → Q a r.1)
      → Outcome Q t (finished fate s u r)
  unfolding finished
  finished-Outcome answered s t u r g (h, k) = (Grows-trans g h, k)
  finished-Outcome refused s t u r g (h, k) = (g, λ a e. absurd (ground arith))
  finished-Outcome lost s t u r g (h, k) = (Grows-trans g h, λ a e. absurd (ground arith))

  -- A statement, from what it does to the tables that it finds.
  pub run-Outcome :
      (f : Tables → Result A × Tables) (s : Store)
      → ((u : Tables)
          → Grows s.tables u
          → Grows u (f u).1 × ((a : A) → (f u).0 ≡ ok a → Q a (f u).1))
      → Outcome Q s.tables (run f s)
  unfolding run
  run-Outcome f s h =
      finished-Outcome fate (record s { turns = drop 1 s.turns }) s.tables u (f u) g (h u g)
    where
      fate : Fate
      fate = (turn_of s.turns).fate

      u : Tables
      u = writes (turn_of s.turns).before s.tables

      g : Grows s.tables u
      g = writes-Grows (turn_of s.turns).before here

  -- An outcome after some growth is one from the start.
  pub Outcome-later :
      {t u : Tables} (r : Result A × Store) → Grows t u → Outcome Q u r → Outcome Q t r
  Outcome-later r g (h, k) = (Grows-trans g h, k)

  pub if-Outcome :
      {t : Tables} (b : Bool) (r q : Result A × Store)
      → (b ≡ true → Outcome Q t r)
      → (b ≡ false → Outcome Q t q)
      → Outcome Q t (if b then r else q)
  if-Outcome true r q h k = h refl
  if-Outcome false r q h k = k refl

  pub Outcome-err : {t : Tables} (e : Err) (s : Store) → Grows t s.tables → Outcome Q t (err e, s)
  Outcome-err e s g = (g, λ a q. absurd (ground arith))

  pub Outcome-ok :
      {t : Tables} (a : A) (s : Store) → Grows t s.tables → Q a s.tables → Outcome Q t (ok a, s)
  Outcome-ok a s g q = (g, λ b e. subst (λ c. Q c s.tables) (ground arith) q)

found_lem : (o : Option Text) {x : Text} → found o ≡ ok x → o ≡ some x
unfolding found
found_lem none h = absurd (ground arith)
found_lem (some y) h = ground arith

-- `lookupUserID` gives the user that the key is mapped to.
pub lookup_user_id-Outcome :
    (provider uid : Text) (s : Store)
    → Outcome (Maps provider uid) s.tables (lookup_user_id provider uid s)
unfolding lookup_user_id
lookup_user_id-Outcome provider uid s =
    run-Outcome (Maps provider uid) (λ t. (found (find_user provider uid t.entries), t)) s
      λ u g. (here, λ a h. found_lem (find_user provider uid u.entries) h)

pub with_user-Outcome :
    (p q x : Text) {t : Tables} (r : Result (Unit {0}) × Store)
    → Outcome (λ _ u. Maps p q x u) t r
    → Outcome (Maps p q) t (with_user x r)
unfolding with_user
with_user-Outcome p q x (ok y, s) (g, h) = Outcome-ok (Maps p q) x s g (h y refl)
with_user-Outcome p q x (err e, s) (g, h) = Outcome-err (Maps p q) e s g

module _ (provider uid x : Text) (s : Store) (v : IsValid s.tables) (p q : Text)
    (m : Maps p q x s.tables) where
  abbrev row : Entry
  row = record { provider = provider; uid = uid; user = x }

  link_it : (u : Tables) → Grows s.tables u → Grows u (link_row row u)
  link_it u g = link_step row (Maps-HasUser p q u (Grows-IsValid g v) (Grows-Maps p q g m)) here

  linked-Outcome : Outcome (λ _ t. Maps p q x t) s.tables (run (λ t. (ok tt, link_row row t)) s)
  linked-Outcome =
      run-Outcome (λ _ t. Maps p q x t) (λ t. (ok tt, link_row row t)) s
        λ u g. (link_it u g, λ a h. Grows-Maps p q (link_it u g) (Grows-Maps p q g m))

  -- A user that some key is mapped to may be linked.
  pub link_identity-Grows : Grows s.tables (link_identity provider uid x s).1.tables
  unfolding link_identity
  link_identity-Grows = linked-Outcome.0

  -- The mapping that there was stays.
  pub link_identity-Outcome :
      Outcome (Maps p q) s.tables (with_user x (link_identity provider uid x s))
  unfolding link_identity
  link_identity-Outcome =
      with_user-Outcome p q x (run (λ t. (ok tt, link_row row t)) s) linked-Outcome
