-- ===== src/Users.antt =====
-- The profiles of user-service: go/services/user-service/internal (store/users.go, me/handler.go,
-- list/handler.go). A body is the list of its bytes.
pub mod Rows
pub mod Laws
use ting_boundless.Http.{write_error, ErrorReply, internal, bad_request}
use ting_boundless.Base.Results.{
  answered, Err, Fate, carried_out, next_fate, Result, ok, err, wrapped, failure,
}
use ting_boundless.Identity.{Identity}
use ting_boundless.Base.{
  keep, sort_by, take, trim_space, is_nil, ltb, leb, not, text_eq, Option, List, drop, codes, ℕ,
  Bool, Text, ◌+◌, ◌∷◌, if◌then◌else◌, some, none, [],
}

-- `User`; the times are in nanoseconds.
pub record User : Type 0 where
  pub id : Text
  pub tenant_id : Text
  pub display_name : Text
  pub created_at : ℕ
  pub updated_at : ℕ

-- `Users` and the table behind its pool, and the fates of the next statements.
pub record Users : Type 0 where
  pub connected : Bool
  pub rows : List User
  pub turns : List Fate

unfoldable pub is_user : Text → User → Bool
is_user id u = text_eq u.id id

unfoldable pub find_row : Text → List User → Option User
find_row id [] = none
find_row id (u ∷ us) = let rest = find_row id us in if is_user id u then some u else rest

-- The rows with the row of an id replaced.
unfoldable pub replaced : Text → User → List User → List User
replaced id v [] = []
replaced id v (u ∷ us) = let rest = replaced id v us in if is_user id u then v ∷ us else u ∷ rest

unfoldable pub upserted : ℕ → Text → Text → List User → Option User → User × List User
upserted now id tenant us (some u) =
    let v = record u { tenant_id = tenant; updated_at = now } in (v, replaced id v us)
upserted now id tenant us none =
    let v : User = record {
      id = id;
      tenant_id = tenant;
      display_name = id;
      created_at = now;
      updated_at = now;
    } in
    (v, v ∷ us)

-- `INSERT … ON CONFLICT (id) DO UPDATE … RETURNING`; the display name of a new row is its id.
unfoldable pub upsert : ℕ → Text → Text → List User → User × List User
unfolding upserted
upsert now id tenant us = upserted now id tenant us (find_row id us)

unfoldable pub not_connected : Err
not_connected = failure (codes "database not connected")

unfoldable pub id_required : Err
id_required = failure (codes "user id required")

unfoldable pub db_error : Text → Err
db_error what = wrapped what (failure (codes "database error"))

unfoldable pub next_turn : Users → Users
next_turn s = record s { turns = drop 1 s.turns }

unfoldable pub answer_upsert : Users → User × List User → Result User × Users
answer_upsert s (u, us) = (ok u, record s { rows = us })

-- `GetOrCreate`.
unfoldable pub get_or_create : ℕ → Identity → Users → Result User × Users
unfolding not_connected id_required db_error answer_upsert
get_or_create now id s =
    if not s.connected
    then (err not_connected, s)
    else if is_nil id.user_id
    then (err id_required, s)
    else carried_out (next_fate s.turns) (db_error (codes "get or create user")) (next_turn s)
        (answer_upsert (next_turn s) (upsert now id.user_id id.tenant_id s.rows))

unfoldable pub renamed : ℕ → Identity → Text → Users → Option User → Result User × Users
renamed now id name s none = (err (wrapped (codes "update user") Err.no_rows), s)
renamed now id name s (some u) =
    let v = record u { tenant_id = id.tenant_id; display_name = name; updated_at = now } in
    (ok v, record s { rows = replaced id.user_id v s.rows })

-- `UPDATE users SET … WHERE id = $1 RETURNING`.
unfoldable pub update_row : ℕ → Identity → Text → Users → Result User × Users
unfolding renamed
update_row now id name s = renamed now id name s (find_row id.user_id s.rows)

unfoldable pub after_create : ℕ → Identity → Text → Result User × Users → Result User × Users
unfolding db_error
after_create now id name (err e, s) = (err e, s)
after_create now id name (ok _, s) =
    carried_out (next_fate s.turns) (db_error (codes "update user")) (next_turn s)
      (update_row now id name (next_turn s))

-- `UpdateDisplayName`.
unfoldable pub update_display_name : ℕ → Identity → Text → Users → Result User × Users
unfolding not_connected id_required
update_display_name now id name s =
    if not s.connected
    then (err not_connected, s)
    else if is_nil id.user_id
    then (err id_required, s)
    else after_create now id name (get_or_create now id s)

unfoldable pub limit_or_cap : ℕ → ℕ
limit_or_cap limit = if leb limit 0 then 50 else if ltb 100 limit then 100 else limit

-- `ListByTenant`; a limit below 0 is not told from 0.
unfoldable pub list_by_tenant : Users → Text → ℕ → Result (List User)
unfolding not_connected db_error
list_by_tenant s tenant limit =
    if not s.connected then err not_connected else elim (next_fate s.turns) [
      | answered ↦ ok (
          take (limit_or_cap limit)
            (sort_by (λ u. u.created_at) (keep (λ u. text_eq u.tenant_id tenant) s.rows)))
      | _ ↦ err (db_error (codes "list users"))
    ]

-- The replies of the handlers: `writeProfile` adds the caller's roles to a row.
pub data Reply : Type 0 where
  failed : ErrorReply → Reply
  profile : User → List Text → Reply
  directory : List User → Reply

unfoldable pub answer_profile : Identity → Text → Text → Result User × Users → Reply × Users
answer_profile id code message (ok u, s) = (profile u id.roles, s)
answer_profile id code message (err e, s) =
    (failed (write_error id.request_id (internal code message)), s)

-- `get`.
unfoldable pub get_me : ℕ → Identity → Users → Reply × Users
get_me now id s =
    answer_profile id (codes "user_lookup_failed") (codes "failed to load user profile")
      (get_or_create now id s)

-- The length of a text in UTF-8.
unfoldable pub byte_length : Text → ℕ
byte_length [] = 0
byte_length (c ∷ s) =
    (if ltb c 128 then 1 else if ltb c 2048 then 2 else if ltb c 65536 then 3 else 4)
    + byte_length s

unfoldable pub rejected : Identity → Text → Text → Users → Reply × Users
rejected id code message s = (failed (write_error id.request_id (bad_request code message)), s)

unfoldable pub patch_name : ℕ → Identity → Users → Text → Reply × Users
unfolding rejected
patch_name now id s name =
    if is_nil name
    then rejected id (codes "display_name_empty") (codes "display_name cannot be empty") s
    else if ltb 200 (byte_length name)
    then rejected id (codes "display_name_too_long") (codes "display_name exceeds limit") s
    else answer_profile id (codes "user_update_failed") (codes "failed to update profile")
        (update_display_name now id name s)

unfoldable pub patch_decoded : ℕ → Identity → Users → Result (Option Text) → Reply × Users
unfolding rejected patch_name
patch_decoded now id s (err e) = rejected id (codes "invalid_json") (codes "malformed JSON body") s
patch_decoded now id s (ok none) =
    rejected id (codes "display_name_required") (codes "display_name is required") s
patch_decoded now id s (ok (some name)) = patch_name now id s (trim_space name)

-- `patch`; `decode` gives the `display_name` of a body, `none` where it is absent or null.
unfoldable pub patch_me :
    (List ℕ → Result (Option Text)) → ℕ → Identity → Result (List ℕ) → Users → Reply × Users
unfolding rejected patch_decoded
patch_me decode now id (err e) s =
    rejected id (codes "invalid_body") (codes "could not read request body") s
patch_me decode now id (ok body) s = patch_decoded now id s (decode (take 4096 body))

abbrev no_database : Identity → Reply
no_database id = failed (
    write_error id.request_id
      (internal (codes "database_unavailable") (codes "database not connected")))

unfoldable pub with_users : Identity → (Users → Reply × Users) → Option Users → Reply × Option Users
with_users id handle none = (no_database id, none)
with_users id handle (some s) = let out = handle s in (out.0, some out.1)

-- `ServeHTTP` of the profile.
unfoldable pub serve_me :
    (List ℕ → Result (Option Text))
    → ℕ
    → Identity
    → Text
    → Result (List ℕ)
    → Option Users
    → Reply × Option Users
unfolding with_users
serve_me decode now id method body users =
    if text_eq method (codes "GET")
    then with_users id (get_me now id) users
    else if text_eq method (codes "PATCH")
    then with_users id (patch_me decode now id body) users
    else (
      failed (
          write_error id.request_id
            (bad_request (codes "method_not_allowed") (codes "use GET or PATCH"))),
      users,
    )

listed : Identity → Result (List User) → Reply
listed id (ok us) = directory us
listed id (err e) =
    failed (
      write_error id.request_id
        (internal (codes "user_list_failed") (codes "failed to list users")))

-- `ServeHTTP` of the directory; `atoi` is `strconv.Atoi`, a number below 0 being 0.
unfoldable pub serve_directory : (Text → Option ℕ) → Identity → Text → Text → Option Users → Reply
unfolding listed
serve_directory atoi id method limit users =
    if not (text_eq method (codes "GET"))
    then failed
        (write_error id.request_id (bad_request (codes "method_not_allowed") (codes "use GET")))
    else elim users [
      | none ↦ no_database id
      | some s ↦ listed id (
          list_by_tenant s id.tenant_id
            (if is_nil limit then 50 else elim (atoi limit) [ none ↦ 50 | some n ↦ n ]))
    ]
