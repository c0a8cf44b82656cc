-- ===== src/Users/Rows.antt =====
-- What an upsert and a replaced row leave in the table of users.
use ting_boundless.Users.{is_user, upserted, is_user, upserted, User, find_row, replaced, upsert}
use ting_boundless.Base.{
  ap, text_eq_refl, Option, eq_of_text_eq, sym, Bool-cases, subst, arith, text_eq, List, ℕ, Text,
  ◌∷◌, ◌≡◌, refl, inr, inl, false, true, some, none, [],
}

pub find_row-id :
    (id : Text) (us : List User) {u : User} → find_row id us ≡ some u → is_user id u ≡ true
unfolding find_row
find_row-id id [] h = absurd (ground arith)
find_row-id id (x ∷ us) {u} h = elim (Bool-cases (is_user id x)) [
  | inl b ↦ subst (λ y. is_user id y ≡ true) (first b) b
  | inr b ↦ find_row-id id us (ground (arith, b, h))
]
  where
    first : is_user id x ≡ true → x ≡ u
    first b = ground (arith, b, h)

pub find_row-replaced :
    (id : Text) (v : User) (us : List User) {u : User}
    → is_user id v ≡ true
    → find_row id us ≡ some u
    → find_row id (replaced id v us) ≡ some v
unfolding find_row replaced
find_row-replaced id v [] m h = absurd (ground arith)
find_row-replaced id v (x ∷ us) {u} m h = elim (Bool-cases (is_user id x)) [
  | inl b ↦ rw b (ground (arith, m))
  | inr b ↦ rw b (ground (arith, b, find_row-replaced id v us {u = u} m (ground (arith, b, h))))
]

-- Two ids of one row are equal.
pub is_user_other :
    (id j : Text) (u : User) → is_user id u ≡ true → text_eq id j ≡ false → is_user j u ≡ false
unfolding is_user
is_user_other id j u m h = subst (λ k. text_eq k j ≡ false) (sym (eq_of_text_eq u.id id m)) h

pub find_row_other :
    (id j : Text) (v : User) (us : List User)
    → is_user id v ≡ true
    → text_eq id j ≡ false
    → find_row j (replaced id v us) ≡ find_row j us
unfolding find_row replaced
find_row_other id j v [] m h = refl
find_row_other id j v (x ∷ us) m h = elim (Bool-cases (is_user id x)) [
  | inl b ↦ ground (arith, b, is_user_other id j v m h, is_user_other id j x b h)
  | inr b ↦ ground (arith, b, find_row_other id j v us m h)
]

-- The row that is returned is the one that is found afterwards, and other rows stay.
abbrev pub IsUpsert : Text → Text → List User → User × List User → Type 0
IsUpsert id tenant us out =
    (find_row id out.1 ≡ some out.0)
    × (is_user id out.0 ≡ true)
    × (out.0.tenant_id ≡ tenant)
    × ((u : User)
        → find_row id us ≡ some u
        → (out.0.display_name ≡ u.display_name) × (out.0.created_at ≡ u.created_at))
    × ((j : Text) → text_eq id j ≡ false → find_row j out.1 ≡ find_row j us)

upserted-IsUpsert :
    (now : ℕ) (id tenant : Text) (us : List User) (o : Option User)
    → find_row id us ≡ o
    → IsUpsert id tenant us (upserted now id tenant us o)
unfolding upserted find_row is_user
upserted-IsUpsert now id tenant us none n = (
  ground (arith, text_eq_refl id),
  text_eq_refl id,
  refl,
  λ u f. absurd (ground (arith, n, f)),
  λ j h. ground (arith, h),
)
upserted-IsUpsert now id tenant us (some x) f =
    let v : User = record x { tenant_id = tenant; updated_at = now } in
    let m = find_row-id id us f in
    (
      find_row-replaced id v us m f,
      m,
      refl,
      λ u g. (ap (λ y. y.display_name) (same g), ap (λ y. y.created_at) (same g)),
      λ j h. find_row_other id j v us m h,
    )
  where
    same : {u : User} → find_row id us ≡ some u → x ≡ u
    same g = ground (arith, f, g)

pub upsert-IsUpsert :
    (now : ℕ) (id tenant : Text) (us : List User) → IsUpsert id tenant us (upsert now id tenant us)
unfolding upsert
upsert-IsUpsert now id tenant us = upserted-IsUpsert now id tenant us (find_row id us) refl
