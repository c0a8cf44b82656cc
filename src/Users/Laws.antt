-- ===== src/Users/Laws.antt =====
-- What a profile says after it was changed, and whose rows a call touches.
use ting_boundless.Identity.{Identity}
use ting_boundless.Users.{
  profile, answer_profile, patch_name, patch_decoded, byte_length, answer_upsert, next_turn,
  db_error, serve_me, with_users, patch_me, get_me, Reply, after_create, next_turn, answer_upsert,
  update_row, is_user, renamed, is_user, User, Users, find_row, upsert, get_or_create,
  update_display_name,
}
use ting_boundless.Base.{
  trim_space, take, ltb, ◌≤◌, codes, drop, ap, is_nil, Option, ◌∙◌, sym, subst, arith, text_eq,
  List, ℕ, Text, ◌≡◌, refl, false, true, some, [],
}
use ting_boundless.Base.Results.{ok_eq, err, next_fate, carried_out-answered, Result, ok}
use ting_boundless.Users.Rows.{find_row_other, find_row-replaced, upsert-IsUpsert, find_row-id}

-- The store is connected, its statements are answered, and the caller is a user.
abbrev pub IsReady : Identity → Users → Type 0
IsReady id s = (s.connected ≡ true) × (is_nil id.user_id ≡ false) × (s.turns ≡ [])

get_or_create-ready :
    (now : ℕ) (id : Identity) (s : Users)
    → IsReady id s
    → get_or_create now id s
      ≡ answer_upsert (next_turn s) (upsert now id.user_id id.tenant_id s.rows)
unfolding get_or_create
get_or_create-ready now id s (c, n, t) = ground (arith, c, n, t)

-- The row of the caller, renamed.
IsRenamed : ℕ → Identity → Text → Users → Result User × Users → Type 0
IsRenamed now id name s out =
    (v : User) × (out.0 ≡ ok v)
    × (v.display_name ≡ name)
    × (is_user id.user_id v ≡ true)
    × (find_row id.user_id out.1.rows ≡ some v)
    × IsReady id out.1
    × ((j : Text) → text_eq id.user_id j ≡ false → find_row j out.1.rows ≡ find_row j s.rows)

update_row-IsRenamed :
    (now : ℕ) (id : Identity) (name : Text) (s : Users) (u : User)
    → IsReady id s
    → find_row id.user_id s.rows ≡ some u
    → IsRenamed now id name s (update_row now id name s)
unfolding update_row renamed IsRenamed is_user
update_row-IsRenamed now id name s u r f =
    let v : User = record u { tenant_id = id.tenant_id; display_name = name; updated_at = now } in
    let m = find_row-id id.user_id s.rows f in
    rw f (
      v,
      refl,
      refl,
      m,
      find_row-replaced id.user_id v s.rows m f,
      r,
      λ j h. find_row_other id.user_id j v s.rows m h,
    )

update_display_name-IsRenamed :
    (now : ℕ) (id : Identity) (name : Text) (s : Users)
    → IsReady id s
    → IsRenamed now id name s (update_display_name now id name s)
unfolding IsRenamed answer_upsert after_create next_turn update_display_name
update_display_name-IsRenamed now id name s r =
    let out = upsert now id.user_id id.tenant_id s.rows in
    let made : Users = record s { turns = drop 1 s.turns; rows = out.1 } in
    let (f, m, t, k, others) = upsert-IsUpsert now id.user_id id.tenant_id s.rows in
    let ready : IsReady id made = (r.0, r.1, ap (λ ts. drop 1 ts) r.2) in
    let next : Users = record made { turns = drop 1 made.turns } in
    let (v, a, b, c, d, e, g) =
      update_row-IsRenamed now id name next out.0 (r.0, r.1, ap (λ ts. drop 1 ts) ready.2) f in
    subst (IsRenamed now id name s)
      (sym (whole ∙ ap (after_create now id name) (get_or_create-ready now id s r) ∙ second))
      (v, a, b, c, d, e, λ j h. g j h ∙ others j h)
  where
    nt : Users
    nt = next_turn s

    made : Users
    made = record nt { rows = (upsert now id.user_id id.tenant_id s.rows).1 }

    whole : update_display_name now id name s ≡ after_create now id name (get_or_create now id s)
    whole = ground (arith, r.0, r.1)

    second :
        after_create now id name (answer_upsert nt (upsert now id.user_id id.tenant_id s.rows))
        ≡ update_row now id name (next_turn made)
    second =
        carried_out-answered (next_fate (drop 1 s.turns)) (db_error (codes "update user"))
          (next_turn made) (update_row now id name (next_turn made))
          (ap (λ ts. next_fate (drop 1 ts)) r.2)

module _ (decode : List ℕ → Result (Option Text)) (now later : ℕ) (id : Identity) (s : Users) where
  -- The calls: a PATCH with a body, and a GET on what it left.
  abbrev pub patched : List ℕ → Reply × Option Users
  patched body = serve_me decode now id (codes "PATCH") (ok body) (some s)

  abbrev pub read_back : List ℕ → Reply × Option Users
  read_back body = serve_me decode later id (codes "GET") (ok []) (patched body).1

  patched_lem :
      (body : List ℕ) → patched body ≡ with_users id (patch_me decode now id (ok body)) (some s)
  unfolding serve_me text_eq codes
  patched_lem body = refl

  read_back_lem :
      (body : List ℕ) → read_back body ≡ with_users id (get_me later id) (patched body).1
  unfolding serve_me text_eq codes
  read_back_lem body = refl

-- A call that shows the caller's profile with a name, and leaves the rows of others.
abbrev pub Shows : Identity → Text → Users → Reply × Users → Type 0
Shows id name s out =
    (w : User) × (out.0 ≡ profile w id.roles)
    × (w.display_name ≡ name)
    × (is_user id.user_id w ≡ true)
    × ((j : Text) → text_eq id.user_id j ≡ false → find_row j out.1.rows ≡ find_row j s.rows)

get_me-Shows :
    (now : ℕ) (id : Identity) (s : Users) (v : User)
    → IsReady id s
    → find_row id.user_id s.rows ≡ some v
    → Shows id v.display_name s (get_me now id s)
unfolding get_me answer_profile answer_upsert next_turn
get_me-Shows now id s v r f =
    let (g, m, t, k, others) = upsert-IsUpsert now id.user_id id.tenant_id s.rows in
    subst
      (λ o.
        Shows id v.display_name s
          (answer_profile id (codes "user_lookup_failed") (codes "failed to load user profile") o))
      (sym (get_or_create-ready now id s r))
      ((upsert now id.user_id id.tenant_id s.rows).0, refl, (k v f).0, m, others)

patch_name-Shows :
    (now : ℕ) (id : Identity) (s : Users) (name : Text)
    → IsReady id s
    → is_nil name ≡ false
    → ltb 200 (byte_length name) ≡ false
    → (v : User) × Shows id name s (patch_name now id s name)
      × IsReady id (patch_name now id s name).1
      × (find_row id.user_id (patch_name now id s name).1.rows ≡ some v)
      × (v.display_name ≡ name)
unfolding patch_name IsRenamed answer_profile
patch_name-Shows now id s name r n l =
    let (v, a, b, c, d, e, g) = update_display_name-IsRenamed now id name s r in
    rw (n, l) (by_result (update_display_name now id name s) v a b c d e g)
  where
    answer : Result User × Users → Reply × Users
    answer = answer_profile id (codes "user_update_failed") (codes "failed to update profile")

    by_result :
        (out : Result User × Users) (v : User)
        → out.0 ≡ ok v
        → v.display_name ≡ name
        → is_user id.user_id v ≡ true
        → find_row id.user_id out.1.rows ≡ some v
        → IsReady id out.1
        → ((j : Text) → text_eq id.user_id j ≡ false → find_row j out.1.rows ≡ find_row j s.rows)
        → (w : User) × Shows id name s (answer out)
          × IsReady id (answer out).1
          × (find_row id.user_id (answer out).1.rows ≡ some w)
          × (w.display_name ≡ name)
    by_result (err x, t) v a b c d e g = absurd (ground arith)
    by_result (ok u, t) v a b c d e g =
        (v, (v, ap (λ y. profile y id.roles) (ok_eq a), b, c, g), e, d, b)

-- Changing the name and reading it back: where the pool is not nil, the caller has an id, every statement
-- is answered, and the body decodes to a display name that, trimmed, is not empty and has at most 200
-- bytes, a PATCH answers with the caller's profile under that trimmed name, a GET by the same caller on
-- the table that it left answers with it too, and neither touches a row of another user.
pub serve_me-Shows :
    (decode : List ℕ → Result (Option Text)) (now later : ℕ) (id : Identity) (s : Users)
    (body : List ℕ) (raw : Text)
    → IsReady id s
    → decode (take 4096 body) ≡ ok (some raw)
    → is_nil (trim_space raw) ≡ false
    → byte_length (trim_space raw) ≤ 200
    → (t u : Users) × ((patched decode now later id s body).1 ≡ some t)
      × Shows id (trim_space raw) s ((patched decode now later id s body).0, t)
      × ((read_back decode now later id s body).1 ≡ some u)
      × Shows id (trim_space raw) t ((read_back decode now later id s body).0, u)
unfolding with_users patch_me patch_decoded
serve_me-Shows decode now later id s body raw r d n l =
    let name = trim_space raw in
    let out = patch_name now id s name in
    let (v, shown, ready, f, b) = patch_name-Shows now id s name r n (ground (arith, l)) in
    let again = get_me later id out.1 in
    let p : patched decode now later id s body ≡ (out.0, some out.1) =
      patched_lem decode now later id s body
      ∙ ap (λ o. with_users id (λ t. patch_decoded now id t o) (some s)) d in
    let q : read_back decode now later id s body ≡ (again.0, some again.1) =
      read_back_lem decode now later id s body ∙ ap (λ o. with_users id (get_me later id) o.1) p in
    (
      out.1,
      again.1,
      ap (λ o. o.1) p,
      subst (λ o. Shows id name s (o, out.1)) (sym (ap (λ o. o.0) p)) shown,
      ap (λ o. o.1) q,
      subst (λ o. Shows id name out.1 (o, again.1)) (sym (ap (λ o. o.0) q))
          (subst (λ m. Shows id m out.1 again) b (get_me-Shows later id out.1 v ready f)),
    )
