-- ===== src/Accounts/Laws.antt =====
-- What `ResolveProviderUser` promises, whatever other processes write meanwhile.
use ting_boundless.Accounts.Outcomes.{
  if-Outcome, lookup_user_id-Outcome, run-Outcome, with_user-Outcome, Outcome, Outcome-later,
  Outcome-err,
}
use ting_boundless.Accounts.Growth.{
  Grows-trans, Grows-Maps, HasUser, here, Grows, Maps, create_step,
}
use ting_boundless.Base.{
  not, is_nil, codes, text_eq, any, ℕ, List, Option-cases, Bool-cases, text_eq_refl, arith, Text,
  ◌||◌, ◌∷◌, ◌≡◌, inr, inl, some,
}
use ting_boundless.Base.Results.{failure, is_no_rows, Err, Result, err, ok}
use ting_boundless.Accounts.{
  is_unique_violation, created, lookup_user_id, run, new_user_id, Store, Tables, Entry,
  resolve_provider_user, looked_up, looked_again, create_user_with_provider, create_user,
  create_unless, has_key, create_rows, find_user,
}
use ting_boundless.Accounts.Validity.{Maps-HasUser, Grows-IsValid, IsValid}

find_user_head :
    (provider uid x : Text) (es : List Entry)
    → find_user provider uid (record { provider = provider; uid = uid; user = x } ∷ es) ≡ some x
unfolding find_user has_key
find_user_head provider uid x es = ground (arith, text_eq_refl provider, text_eq_refl uid)

create_rows-Maps :
    (provider uid x : Text) (t : Tables) (a : Unit {0})
    → (create_rows (record { provider = provider; uid = uid; user = x }) t).0 ≡ ok a
    → Maps provider uid x (create_rows (record { provider = provider; uid = uid; user = x }) t).1
unfolding create_rows create_unless
create_rows-Maps provider uid x t a h = elim (Bool-cases (any (text_eq x) t.users)) [
  | inl b ↦ absurd (ground (arith, b, h))
  | inr b ↦ elim (Option-cases (find_user provider uid t.entries)) [
    | inl k ↦ rw (b, k) (find_user_head provider uid x t.entries)
    | inr (y, k) ↦ absurd (ground (arith, b, k, h))
  ]
]

module _ (provider uid : Text) where
  create_user-Outcome :
      (s : Store) (x : Result Text)
      → Outcome (Maps provider uid) s.tables (create_user provider uid s x)
  unfolding create_user
  create_user-Outcome s (err e) = Outcome-err (Maps provider uid) e s here
  create_user-Outcome s (ok x) = with_user-Outcome provider uid x (run (create_rows row) s) (
      run-Outcome (λ _ t. Maps provider uid x t) (create_rows row) s
        λ u g. (create_step row here, λ a h. create_rows-Maps provider uid x u a h))
    where
      row : Entry
      row = record { provider = provider; uid = uid; user = x }

  -- `createUserWithProvider` maps the key to the user that it returns.
  pub create_user_with_provider-Outcome :
      (random : Result (List ℕ)) (s : Store)
      → Outcome (Maps provider uid) s.tables (create_user_with_provider random provider uid s)
  unfolding create_user_with_provider
  create_user_with_provider-Outcome random s = create_user-Outcome s (new_user_id random)

  looked_again-Outcome :
      {t : Tables} (first : Err) (r : Result Text × Store)
      → Outcome (Maps provider uid) t r
      → Outcome (Maps provider uid) t (looked_again first r)
  unfolding looked_again
  looked_again-Outcome first (ok x, s) h = h
  looked_again-Outcome first (err e, s) (g, h) = Outcome-err (Maps provider uid) first s g

  created-Outcome :
      {t : Tables} (r : Result Text × Store)
      → Outcome (Maps provider uid) t r
      → Outcome (Maps provider uid) t (created provider uid r)
  unfolding created
  created-Outcome (ok x, s) h = h
  created-Outcome (err e, s) (g, h) =
      if-Outcome (Maps provider uid) (is_unique_violation e) _ _
        (λ _. looked_again-Outcome e (lookup_user_id provider uid s) (
          Outcome-later (Maps provider uid) (lookup_user_id provider uid s) g
            (lookup_user_id-Outcome provider uid s)))
        (λ _. Outcome-err (Maps provider uid) e s g)

  looked_up-Outcome :
      {t : Tables} (random : Result (List ℕ)) (r : Result Text × Store)
      → Outcome (Maps provider uid) t r
      → Outcome (Maps provider uid) t (looked_up random provider uid r)
  unfolding looked_up
  looked_up-Outcome random (ok x, s) h = h
  looked_up-Outcome random (err e, s) (g, h) =
      let made = create_user_with_provider random provider uid s in
      if-Outcome (Maps provider uid) (is_no_rows e) _ _
        (λ _.
          created-Outcome made
            (Outcome-later (Maps provider uid) made g (create_user_with_provider-Outcome random s)))
        (λ _. Outcome-err (Maps provider uid) e s g)

  pub resolve_provider_user-Outcome :
      (random : Result (List ℕ)) (s : Store)
      → Outcome (Maps provider uid) s.tables (resolve_provider_user random provider uid s)
  unfolding resolve_provider_user
  resolve_provider_user-Outcome random s =
      if-Outcome (Maps provider uid) (not s.connected) _ _
        (λ _.
          Outcome-err (Maps provider uid) (failure (codes "identity store not configured")) s here)
        λ _.
          if-Outcome (Maps provider uid) (is_nil provider || is_nil uid) _ _
            (λ _.
              Outcome-err (Maps provider uid) (failure (codes "provider and provider_uid required"))
                s here)
            λ _.
              looked_up-Outcome random (lookup_user_id provider uid s)
                (lookup_user_id-Outcome provider uid s)

-- When `ResolveProviderUser` returns a user, whatever other processes wrote meanwhile and whichever
-- statements failed, the identity is mapped to that user, and, where the tables were valid, they are
-- valid again and the user exists.
pub resolve_provider_user-Maps :
    (random : Result (List ℕ)) (provider uid : Text) (s : Store)
    → IsValid s.tables
    → let out = resolve_provider_user random provider uid s in
      IsValid out.1.tables
      × ((x : Text) → out.0 ≡ ok x → Maps provider uid x out.1.tables × HasUser x out.1.tables)
resolve_provider_user-Maps random provider uid s v = (
  w,
  λ x h. (
    o.1 x h,
    Maps-HasUser provider uid (resolve_provider_user random provider uid s).1.tables w (o.1 x h),
  ),
)
  where
    o : Outcome (Maps provider uid) s.tables (resolve_provider_user random provider uid s)
    o = resolve_provider_user-Outcome provider uid random s

    w : IsValid (resolve_provider_user random provider uid s).1.tables
    w = Grows-IsValid o.0 v

-- Two calls of `ResolveProviderUser` for one identity that both return a user return the same one: the
-- second by any process on tables that have grown from those that the first one left.
pub resolve_provider_user_agrees :
    (provider uid : Text) (random other : Result (List ℕ)) (s s' : Store) {x y : Text}
    → (resolve_provider_user random provider uid s).0 ≡ ok x
    → Grows (resolve_provider_user random provider uid s).1.tables s'.tables
    → (resolve_provider_user other provider uid s').0 ≡ ok y
    → x ≡ y
resolve_provider_user_agrees provider uid random other s s' {x} {y} h g k =
    ground (arith, later, second)
  where
    first : Outcome (Maps provider uid) s.tables (resolve_provider_user random provider uid s)
    first = resolve_provider_user-Outcome provider uid random s

    outcome : Outcome (Maps provider uid) s'.tables (resolve_provider_user other provider uid s')
    outcome = resolve_provider_user-Outcome provider uid other s'

    later : Maps provider uid x (resolve_provider_user other provider uid s').1.tables
    later = Grows-Maps provider uid (Grows-trans g outcome.0) (first.1 x h)

    second : Maps provider uid y (resolve_provider_user other provider uid s').1.tables
    second = outcome.1 y k
