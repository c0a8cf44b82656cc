-- ===== src/Accounts/Growth.antt =====
-- How the tables of the identity store grow: every operation commits a sequence of writes, its own and
-- those of the other processes, and no write takes a mapping away.
use ting_boundless.Accounts.{
  register, link, create_unless, insert_unless, Write, Entry, add_user, create_rows, link_row,
  find_user, has_key, writes, write, Tables,
}
use ting_boundless.Base.{
  text_eq, List, any, Text, ap₂, arith, Option-cases, Bool-cases, eq_of_text_eq, ◌∷◌, ◌≡◌, inr, inl,
  true, some, none, [],
}

abbrev pub HasUser : Text → Tables → Type 0
HasUser x t = any (text_eq x) t.users ≡ true

-- The key is mapped to the user.
abbrev pub Maps : Text → Text → Text → Tables → Type 0
Maps provider uid x t = find_user provider uid t.entries ≡ some x

-- The tables that are reached by steps of any process.
pub data Grows (t : Tables) : Tables → Type 0 where
  here : Grows t t
  add_step : {u : Tables} (x : Text) → Grows t u → Grows t (write (add_user x) u)
  link_step : {u : Tables} (e : Entry) → HasUser e.user u → Grows t u → Grows t (link_row e u)
  create_step : {u : Tables} (e : Entry) → Grows t u → Grows t (create_rows e u).1

pub Grows-trans : {t u v : Tables} → Grows t u → Grows u v → Grows t v
Grows-trans g here = g
Grows-trans g (add_step x h) = add_step x (Grows-trans g h)
Grows-trans g (link_step e k h) = link_step e k (Grows-trans g h)
Grows-trans g (create_step e h) = create_step e (Grows-trans g h)

link_if-Grows : (e : Entry) {t u : Tables} → Grows t u → Grows t (write (link e) u)
unfolding write
link_if-Grows e {t} {u} g = elim (Bool-cases (any (text_eq e.user) u.users)) [
  | inl k ↦ rw k (link_step e k g)
  | inr k ↦ rw k g
]

write-Grows : (w : Write) {t u : Tables} → Grows t u → Grows t (write w u)
unfolding write
write-Grows (add_user x) g = add_step x g
write-Grows (link e) g = link_if-Grows e g
write-Grows (register e) g = create_step e g

pub writes-Grows : (ws : List Write) {t u : Tables} → Grows t u → Grows t (writes ws u)
unfolding writes
writes-Grows [] g = g
writes-Grows (w ∷ ws) g = writes-Grows ws (write-Grows w g)

-- Keys.
pub has_key_eq :
    (provider uid : Text) (e : Entry)
    → has_key provider uid e ≡ true
    → (e.provider ≡ provider) × (e.uid ≡ uid)
unfolding has_key
has_key_eq provider uid e h =
    (eq_of_text_eq e.provider provider (ground arith), eq_of_text_eq e.uid uid (ground arith))

-- A row that is added under a free key takes no other key's user.
add-Maps :
    (provider uid : Text) {x : Text} (e : Entry) (es : List Entry)
    → find_user e.provider e.uid es ≡ none
    → find_user provider uid es ≡ some x
    → find_user provider uid (e ∷ es) ≡ some x
unfolding find_user
add-Maps provider uid e es free h = elim (Bool-cases (has_key provider uid e)) [
  | inl k ↦
      let (p, q) = has_key_eq provider uid e k in
      absurd (ground (arith, ap₂ (λ a b. find_user a b es) p q))
  | inr k ↦ ground (arith, k)
]

link-Maps :
    (provider uid : Text) {x : Text} (e : Entry) (t : Tables)
    → Maps provider uid x t
    → Maps provider uid x (link_row e t)
unfolding link_row insert_unless
link-Maps provider uid e t h = elim (Option-cases (find_user e.provider e.uid t.entries)) [
  | inl k ↦ rw k (add-Maps provider uid e t.entries k h)
  | inr (y, k) ↦ rw k h
]

register-Maps :
    (provider uid : Text) {x : Text} (e : Entry) (t : Tables)
    → Maps provider uid x t
    → Maps provider uid x (create_rows e t).1
unfolding create_rows create_unless
register-Maps provider uid e t h = elim (Bool-cases (any (text_eq e.user) t.users)) [
  | inl b ↦ rw b h
  | inr b ↦ elim (Option-cases (find_user e.provider e.uid t.entries)) [
    | inl k ↦ rw (b, k) (add-Maps provider uid e t.entries k h)
    | inr (y, k) ↦ rw (b, k) h
  ]
]

add_user-Maps :
    (provider uid : Text) {x : Text} (y : Text) (t : Tables)
    → Maps provider uid x t
    → Maps provider uid x (write (add_user y) t)
unfolding write
add_user-Maps provider uid y t h = elim (Bool-cases (any (text_eq y) t.users)) [
  | inl b ↦ rw b h
  | inr b ↦ rw b h
]

-- A mapping stays.
pub Grows-Maps :
    (provider uid : Text) {x : Text} {t u : Tables}
    → Grows t u
    → Maps provider uid x t
    → Maps provider uid x u
Grows-Maps provider uid here h = h
Grows-Maps provider uid (add_step {u} y g) h =
    add_user-Maps provider uid y u (Grows-Maps provider uid g h)
Grows-Maps provider uid (link_step {u} e k g) h =
    link-Maps provider uid e u (Grows-Maps provider uid g h)
Grows-Maps provider uid (create_step {u} e g) h =
    register-Maps provider uid e u (Grows-Maps provider uid g h)
