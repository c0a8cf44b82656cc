-- ===== src/Accounts.antt =====
-- The identity store of auth-service: go/services/auth-service/internal/store/identity.go. The state is
-- the two tables, which other processes write as well: a turn says what they committed before the
-- next statement, and whether that statement is answered.
pub mod Wechat
pub mod WechatClient
pub mod Api
pub mod Growth
pub mod Validity
pub mod Outcomes
pub mod Progress
pub mod Laws
pub mod WechatLaws
use ting_boundless.Base.{
  is_nil, not, codes, ℕ, drop, text_eq, any, Option, List, Text, ◌||◌, ◌&&◌, ◌∷◌, if◌then◌else◌,
  false, true, some, none, [], Bool,
}
use ting_boundless.Base.Results.{
  Fate, answered, refused, lost, is_no_rows, wrapped, no_rows, unique_violation, failure, Result,
  Err, err, ok,
}
use ting_boundless.Trace.{hex}

-- A row of `user_identities`.
pub record Entry : Type 0 where
  pub provider : Text
  pub uid : Text
  pub user : Text

-- The tables `users`, by its primary key, and `user_identities`.
pub record Tables : Type 0 where
  pub users : List Text
  pub entries : List Entry

-- What a process commits to them: a user, an identity of a user that exists, or a user with its identity.
pub data Write : Type 0 where
  add_user : Text → Write
  link : Entry → Write
  register : Entry → Write

pub record Turn : Type 0 where
  pub before : List Write
  pub fate : Fate

-- `IdentityStore`; `connected` says that the pool is not nil. Statements after the last turn are
-- answered, with nothing written in between.
pub record Store : Type 0 where
  pub connected : Bool
  pub tables : Tables
  pub turns : List Turn

-- `isUniqueViolation`.
unfoldable pub is_unique_violation : Err → Bool
is_unique_violation unique_violation = true
is_unique_violation (wrapped msg e) = is_unique_violation e
is_unique_violation _ = false

-- The database refused or lost the statement.
unfoldable pub db_error : Err
db_error = failure (codes "database error")

unfoldable pub has_key : Text → Text → Entry → Bool
has_key provider uid e = text_eq e.provider provider && text_eq e.uid uid

-- The user of the row with that primary key.
unfoldable pub find_user : Text → Text → List Entry → Option Text
find_user provider uid [] = none
find_user provider uid (e ∷ es) =
    let rest = find_user provider uid es in if has_key provider uid e then some e.user else rest

unfoldable pub insert_unless : Option Text → Entry → Tables → Tables
insert_unless none e t = record t { entries = e ∷ t.entries }
insert_unless (some x) e t = t

-- `INSERT INTO user_identities … ON CONFLICT DO NOTHING`.
unfoldable pub link_row : Entry → Tables → Tables
unfolding insert_unless
link_row e t = insert_unless (find_user e.provider e.uid t.entries) e t

unfoldable pub create_unless : Option Text → Entry → Tables → Result (Unit {0}) × Tables
create_unless none e t = (ok tt, record { users = e.user ∷ t.users; entries = e ∷ t.entries })
create_unless (some x) e t = (err unique_violation, t)

-- The transaction of `createUserWithProvider`: both rows, or neither.
unfoldable pub create_rows : Entry → Tables → Result (Unit {0}) × Tables
unfolding create_unless
create_rows e t =
    if any (text_eq e.user) t.users
    then (err unique_violation, t)
    else create_unless (find_user e.provider e.uid t.entries) e t

unfoldable pub write : Write → Tables → Tables
write (add_user x) t = if any (text_eq x) t.users then t else record t { users = x ∷ t.users }
write (link e) t = if any (text_eq e.user) t.users then link_row e t else t
write (register e) t = (create_rows e t).1

unfoldable pub writes : List Write → Tables → Tables
writes [] t = t
writes (w ∷ ws) t = writes ws (write w t)

unfoldable pub turn_of : List Turn → Turn
turn_of [] = record { before = []; fate = answered }
turn_of (t ∷ _) = t

module _ {A : Type 0} where
  unfoldable pub finished : Fate → Store → Tables → Result A × Tables → Result A × Store
  finished answered s t (r, u) = (r, record s { tables = u })
  finished refused s t (r, u) = (err db_error, record s { tables = t })
  finished lost s t (r, u) = (err db_error, record s { tables = u })

  -- One statement, after what the others committed before it.
  unfoldable pub run : (Tables → Result A × Tables) → Store → Result A × Store
  unfolding turn_of
  run statement s =
      let turn = turn_of s.turns in
      let t = writes turn.before s.tables in
      finished turn.fate (record s { turns = drop 1 s.turns }) t (statement t)

unfoldable pub found : Option Text → Result Text
found none = err no_rows
found (some x) = ok x

-- `lookupUserID`.
unfoldable pub lookup_user_id : Text → Text → Store → Result Text × Store
lookup_user_id provider uid s = run (λ t. (found (find_user provider uid t.entries), t)) s

-- `linkIdentity`.
unfoldable pub link_identity : Text → Text → Text → Store → Result (Unit {0}) × Store
link_identity provider uid x s =
    run (λ t. (ok tt, link_row (record { provider = provider; uid = uid; user = x }) t)) s

-- `newUserID`, from the result of reading sixteen random bytes.
unfoldable pub new_user_id : Result (List ℕ) → Result Text
new_user_id (ok bytes) = ok (hex bytes)
new_user_id (err e) = err e

unfoldable pub with_user : Text → Result (Unit {0}) × Store → Result Text × Store
with_user x (ok _, s) = (ok x, s)
with_user x (err e, s) = (err e, s)

unfoldable pub create_user : Text → Text → Store → Result Text → Result Text × Store
create_user provider uid s (err e) = (err e, s)
create_user provider uid s (ok x) =
    with_user x (run (create_rows (record { provider = provider; uid = uid; user = x })) s)

-- `createUserWithProvider`. Its four statements take one turn: an error at any of them rolls back.
unfoldable pub create_user_with_provider :
    Result (List ℕ) → Text → Text → Store → Result Text × Store
create_user_with_provider random provider uid s = create_user provider uid s (new_user_id random)

unfoldable pub looked_again : Err → Result Text × Store → Result Text × Store
looked_again first (ok x, s) = (ok x, s)
looked_again first (err e, s) = (err first, s)

unfoldable pub created : Text → Text → Result Text × Store → Result Text × Store
created provider uid (ok x, s) = (ok x, s)
created provider uid (err e, s) =
    if is_unique_violation e then looked_again e (lookup_user_id provider uid s) else (err e, s)

unfoldable pub looked_up : Result (List ℕ) → Text → Text → Result Text × Store → Result Text × Store
looked_up random provider uid (ok x, s) = (ok x, s)
looked_up random provider uid (err e, s) =
    if is_no_rows e
    then created provider uid (create_user_with_provider random provider uid s)
    else (err e, s)

-- `ResolveProviderUser`.
unfoldable pub resolve_provider_user : Result (List ℕ) → Text → Text → Store → Result Text × Store
resolve_provider_user random provider uid s =
    if not s.connected
    then (err (failure (codes "identity store not configured")), s)
    else if is_nil provider || is_nil uid
    then (err (failure (codes "provider and provider_uid required")), s)
    else looked_up random provider uid (lookup_user_id provider uid s)

-- `ResolveLogtoUser`.
unfoldable pub resolve_logto_user : Result (List ℕ) → Text → Store → Result Text × Store
resolve_logto_user random sub s = resolve_provider_user random (codes "logto") sub s
