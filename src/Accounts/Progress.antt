-- ===== src/Accounts/Progress.antt =====
-- That `ResolveProviderUser` ends with a user while the database answers, races included.
use ting_boundless.Trace.{hex}
use ting_boundless.Accounts.{
  Entry, new_user_id, create_user_with_provider, find_user, is_unique_violation, create_unless,
  with_user, found, create_rows, create_user, lookup_user_id, insert_unless, writes,
  resolve_provider_user, looked_up, created, looked_again, link_row, Tables, Turn, write, run,
  finished, Store, turn_of,
}
use ting_boundless.Accounts.Growth.{
  Grows-Maps, Maps, HasUser, writes-Grows, here, add_step, link_step, create_step, Grows,
}
use ting_boundless.Base.{
  text_eq, any, is_nil, ℕ, drop, Text, List, any, Option-cases, subst, Bool-cases, arith, ◌∷◌, ◌⊎◌,
  ◌≡◌, refl, inr, inl, false, true, [],
}
use ting_boundless.Base.Results.{
  Fate, answered, refused, lost, is_no_rows, unique_violation, Result, is_no_rows, err, ok,
}

-- No turn loses or refuses a statement.
abbrev pub IsAnswered : List Turn → Type 0
IsAnswered [] = Unit
IsAnswered (t ∷ ts) = (t.fate ≡ answered) × IsAnswered ts

drop-IsAnswered : (ts : List Turn) → IsAnswered ts → IsAnswered (drop 1 ts)
drop-IsAnswered [] a = tt
drop-IsAnswered (t ∷ ts) (e, a) = a

turn_of-answered : (ts : List Turn) → IsAnswered ts → (turn_of ts).fate ≡ answered
unfolding turn_of
turn_of-answered [] a = refl
turn_of-answered (t ∷ ts) (e, a) = e

after : {A : Type 0} → Store → Result A × Tables → Result A × Store
after s (r, t) = (r, record s { tables = t; turns = drop 1 s.turns })

finished-answered :
    {A : Type 0} (fate : Fate) (s : Store) (u : Tables) (r : Result A × Tables)
    → fate ≡ answered
    → finished fate (record s { turns = drop 1 s.turns }) u r ≡ after s r
unfolding finished after
finished-answered answered s u r e = refl
finished-answered refused s u r e = absurd (ground arith)
finished-answered lost s u r e = absurd (ground arith)

run-answered :
    {A : Type 0} (f : Tables → Result A × Tables) (s : Store)
    → IsAnswered s.turns
    → (u : Tables) × Grows s.tables u × (run f s ≡ after s (f u))
unfolding run
run-answered f s a =
    let u = writes (turn_of s.turns).before s.tables in
    (
      u,
      writes-Grows (turn_of s.turns).before here,
      finished-answered (turn_of s.turns).fate s u (f u) (turn_of-answered s.turns a),
    )

Grows-HasUser : (x : Text) {t u : Tables} → Grows t u → HasUser x t → HasUser x u
unfolding write link_row insert_unless create_rows create_unless any
Grows-HasUser x here h = h
Grows-HasUser x (add_step {u} y g) h =
    let k = Grows-HasUser x g h in
    elim (Bool-cases (any (text_eq y) u.users)) [
      | inl b ↦ rw b k
      | inr b ↦ rw b (ground (arith, k))
    ]
Grows-HasUser x (link_step {u} e o g) h =
    let k = Grows-HasUser x g h in
    elim (Option-cases (find_user e.provider e.uid u.entries)) [
      | inl b ↦ rw b k
      | inr (y, b) ↦ rw b k
    ]
Grows-HasUser x (create_step {u} e g) h =
    let k = Grows-HasUser x g h in
    elim (Bool-cases (any (text_eq e.user) u.users)) [
      | inl b ↦ rw b k
      | inr b ↦ elim (Option-cases (find_user e.provider e.uid u.entries)) [
        | inl c ↦ rw (b, c) (ground (arith, k))
        | inr (y, c) ↦ rw (b, c) k
      ]
    ]

module _ (provider uid : Text) where
  -- The result is a user, or the id that was drawn is one already.
  abbrev pub Progress : Text → Result Text × Store → Type 0
  Progress id r = ((x : Text) × (r.0 ≡ ok x)) ⊎ (r.0 ≡ err unique_violation) × HasUser id r.1.tables

  again-Progress :
      (id : Text) (s : Store)
      → IsAnswered s.turns
      → HasUser id s.tables ⊎ ((y : Text) × Maps provider uid y s.tables)
      → Progress id (looked_again unique_violation (lookup_user_id provider uid s))
  unfolding looked_again lookup_user_id found after
  again-Progress id s a (inl h) =
      let (u, g, e) = run-answered (λ t. (found (find_user provider uid t.entries), t)) s a in
      elim (Option-cases (find_user provider uid u.entries)) [
        | inl k ↦ rw (e, k) (inr (refl, Grows-HasUser id g h))
        | inr (x, k) ↦ rw (e, k) (inl (x, refl))
      ]
  again-Progress id s a (inr (y, m)) =
      let (u, g, e) = run-answered (λ t. (found (find_user provider uid t.entries), t)) s a in
      let k = Grows-Maps provider uid g m in rw (e, k) (inl (y, refl))

  created-Progress :
      (id : Text) (s : Store)
      → IsAnswered s.turns
      → Progress id (created provider uid (create_user provider uid s (ok id)))
  unfolding created create_user with_user after is_unique_violation create_rows create_unless
  created-Progress id s a =
      let row : Entry = record { provider = provider; uid = uid; user = id } in
      let (u, g, e) = run-answered (create_rows row) s a in
      let next : Store = record s { tables = u; turns = drop 1 s.turns } in
      elim (Bool-cases (any (text_eq id) u.users)) [
        | inl b ↦ rw (e, b) (again-Progress id next (drop-IsAnswered s.turns a) (inl b))
        | inr b ↦ elim (Option-cases (find_user provider uid u.entries)) [
          | inl k ↦ rw (e, b, k) (inl (id, refl))
          | inr (y, k) ↦
              rw (e, b, k) (again-Progress id next (drop-IsAnswered s.turns a) (inr (y, k)))
        ]
      ]

  looked_up-Progress :
      (bytes : List ℕ) (s : Store)
      → IsAnswered s.turns
      → Progress (hex bytes) (looked_up (ok bytes) provider uid (lookup_user_id provider uid s))
  unfolding looked_up lookup_user_id found after is_no_rows create_user_with_provider new_user_id
  looked_up-Progress bytes s a =
      let (u, g, e) = run-answered (λ t. (found (find_user provider uid t.entries), t)) s a in
      let next : Store = record s { tables = u; turns = drop 1 s.turns } in
      elim (Option-cases (find_user provider uid u.entries)) [
        | inl k ↦ rw (e, k) (created-Progress (hex bytes) next (drop-IsAnswered s.turns a))
        | inr (x, k) ↦ rw (e, k) (inl (x, refl))
      ]

  -- While the pool is not nil and the database answers every statement, and with a provider, a uid and
  -- random bytes, `ResolveProviderUser` returns a user whatever other processes write meanwhile, or it
  -- fails with a unique violation and the id that it drew is that of a user.
  pub resolve_provider_user-Progress :
      (bytes : List ℕ) (s : Store)
      → s.connected ≡ true
      → is_nil provider ≡ false
      → is_nil uid ≡ false
      → IsAnswered s.turns
      → Progress (hex bytes) (resolve_provider_user (ok bytes) provider uid s)
  unfolding resolve_provider_user
  resolve_provider_user-Progress bytes s c p q a =
      subst (Progress (hex bytes)) e (looked_up-Progress bytes s a)
    where
      e :
          looked_up (ok bytes) provider uid (lookup_user_id provider uid s)
          ≡ resolve_provider_user (ok bytes) provider uid s
      e = ground (arith, c, p, q)
