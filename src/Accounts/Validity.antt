-- ===== src/Accounts/Validity.antt =====
-- The invariant of the tables of the identity store, and that no process breaks it.
use ting_boundless.Accounts.Growth.{
  here, add_step, link_step, create_step, create_step, link_step, add_step, Maps, Grows, HasUser,
}
use ting_boundless.Base.{
  Bool, text_eq, subst, text_eq_refl, Bool-cases, Option-cases, arith, Text, any, List, ◌∷◌, ◌≡◌,
  inr, inl, false, true, some, none, [],
}
use ting_boundless.Accounts.{
  has_key, add_user, create_unless, insert_unless, Entry, find_user, write, create_rows, link_row,
  Tables,
}

-- No two rows have the same key.
abbrev pub HasUniqueKeys : List Entry → Type 0
HasUniqueKeys [] = Unit
HasUniqueKeys (e ∷ es) = (find_user e.provider e.uid es ≡ none) × HasUniqueKeys es

-- No user is listed twice.
abbrev pub HasUniqueUsers : List Text → Type 0
HasUniqueUsers [] = Unit
HasUniqueUsers (x ∷ xs) = (any (text_eq x) xs ≡ false) × HasUniqueUsers xs

-- Every identity belongs to a user.
abbrev pub HasOwners : List Text → List Entry → Type 0
HasOwners xs [] = Unit
HasOwners xs (e ∷ es) = (any (text_eq e.user) xs ≡ true) × HasOwners xs es

abbrev pub IsValid : Tables → Type 0
IsValid t = HasUniqueKeys t.entries × HasUniqueUsers t.users × HasOwners t.users t.entries

any_cons : (p : Text → Bool) (y : Text) (ys : List Text) → any p ys ≡ true → any p (y ∷ ys) ≡ true
unfolding any
any_cons p y ys h = ground arith

HasOwners-cons :
    (x : Text) (xs : List Text) (es : List Entry) → HasOwners xs es → HasOwners (x ∷ xs) es
HasOwners-cons x xs [] h = tt
HasOwners-cons x xs (e ∷ es) (h, k) = (any_cons (text_eq e.user) x xs h, HasOwners-cons x xs es k)

own_user : (x : Text) (xs : List Text) → any (text_eq x) (x ∷ xs) ≡ true
unfolding any
own_user x xs = ground (arith, text_eq_refl x)

link-IsValid : (e : Entry) (t : Tables) → HasUser e.user t → IsValid t → IsValid (link_row e t)
unfolding link_row insert_unless
link-IsValid e t owner (keys, users, owners) =
    elim (Option-cases (find_user e.provider e.uid t.entries)) [
      | inl k ↦ rw k ((k, keys), users, (owner, owners))
      | inr (y, k) ↦ rw k (keys, users, owners)
    ]

register-IsValid : (e : Entry) (t : Tables) → IsValid t → IsValid (create_rows e t).1
unfolding create_rows create_unless
register-IsValid e t (keys, users, owners) = elim (Bool-cases (any (text_eq e.user) t.users)) [
  | inl b ↦ rw b (keys, users, owners)
  | inr b ↦ elim (Option-cases (find_user e.provider e.uid t.entries)) [
    | inl k ↦
        rw (b, k)
          (
            (k, keys),
            (b, users),
            (own_user e.user t.users, HasOwners-cons e.user t.users t.entries owners),
          )
    | inr (y, k) ↦ rw (b, k) (keys, users, owners)
  ]
]

add_user-IsValid : (x : Text) (t : Tables) → IsValid t → IsValid (write (add_user x) t)
unfolding write
add_user-IsValid x t (keys, users, owners) = elim (Bool-cases (any (text_eq x) t.users)) [
  | inl b ↦ rw b (keys, users, owners)
  | inr b ↦ rw b (keys, (b, users), HasOwners-cons x t.users t.entries owners)
]

-- Whatever is written, valid tables stay valid.
pub Grows-IsValid : {t u : Tables} → Grows t u → IsValid t → IsValid u
Grows-IsValid here v = v
Grows-IsValid (add_step {u} x g) v = add_user-IsValid x u (Grows-IsValid g v)
Grows-IsValid (link_step {u} e k g) v = link-IsValid e u k (Grows-IsValid g v)
Grows-IsValid (create_step {u} e g) v = register-IsValid e u (Grows-IsValid g v)

find_user_owner :
    (provider uid : Text) {x : Text} (xs : List Text) (es : List Entry)
    → HasOwners xs es
    → find_user provider uid es ≡ some x
    → any (text_eq x) xs ≡ true
unfolding find_user
find_user_owner provider uid xs [] h k = absurd (ground arith)
find_user_owner provider uid {x} xs (e ∷ es) (h, hs) k =
    elim (Bool-cases (has_key provider uid e)) [
      | inl b ↦ subst (λ y. any (text_eq y) xs ≡ true) (same b) h
      | inr b ↦ find_user_owner provider uid xs es hs (ground (arith, b))
    ]
  where
    same : has_key provider uid e ≡ true → e.user ≡ x
    same b = ground (arith, b)

-- In valid tables a key is mapped to a user that exists.
pub Maps-HasUser :
    (provider uid : Text) {x : Text} (t : Tables) → IsValid t → Maps provider uid x t → HasUser x t
Maps-HasUser provider uid t (keys, users, owners) h =
    find_user_owner provider uid t.users t.entries owners h
