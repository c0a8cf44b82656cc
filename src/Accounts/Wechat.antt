-- ===== src/Accounts/Wechat.antt =====
-- `ResolveWeChatUser` of go/services/auth-service/internal/store/identity.go.
use ting_boundless.Accounts.{
  create_user_with_provider, lookup_user_id, link_identity, with_user, is_unique_violation, Store,
}
use ting_boundless.Base.Results.{failure, is_no_rows, Err, Result, err, ok}
use ting_boundless.Base.{not, ℕ, List, is_nil, codes, Text, if◌then◌else◌}

abbrev pub wechat_mp : Text
wechat_mp = codes "wechat_mp"

abbrev pub wechat_union : Text
wechat_union = codes "wechat_union"

-- Links the union id, where there is one, to a user who is then the result.
unfoldable pub with_union : Text → Text → Store → Result Text × Store
with_union unionid x s =
    if is_nil unionid then (ok x, s) else with_user x (link_identity wechat_union unionid x s)

unfoldable pub then_union : Text → Result Text × Store → Result Text × Store
then_union unionid (ok x, s) = with_union unionid x s
then_union unionid (err e, s) = (err e, s)

-- `createWeChatUser`.
unfoldable pub create_wechat_user : Result (List ℕ) → Text → Text → Store → Result Text × Store
create_wechat_user random openid unionid s =
    then_union unionid (create_user_with_provider random wechat_mp openid s)

unfoldable pub raced_union : Text → Err → Result Text × Store → Result Text × Store
raced_union openid first (ok x, s) = (ok x, (link_identity wechat_mp openid x s).1)
raced_union openid first (err e, s) = (err first, s)

unfoldable pub raced_openid : Text → Text → Err → Result Text × Store → Result Text × Store
raced_openid openid unionid first (ok x, s) = (ok x, s)
raced_openid openid unionid first (err e, s) =
    if is_nil unionid
    then (err first, s)
    else raced_union openid first (lookup_user_id wechat_union unionid s)

unfoldable pub raced : Text → Text → Result Text × Store → Result Text × Store
raced openid unionid (ok x, s) = (ok x, s)
raced openid unionid (err e, s) =
    if is_unique_violation e
    then raced_openid openid unionid e (lookup_user_id wechat_mp openid s)
    else (err e, s)

unfoldable pub by_creation : Result (List ℕ) → Text → Text → Store → Result Text × Store
by_creation random openid unionid s =
    raced openid unionid (create_wechat_user random openid unionid s)

unfoldable pub by_unionid :
    Result (List ℕ) → Text → Text → Result Text × Store → Result Text × Store
by_unionid random openid unionid (ok x, s) = with_user x (link_identity wechat_mp openid x s)
by_unionid random openid unionid (err e, s) =
    if is_no_rows e then by_creation random openid unionid s else (err e, s)

unfoldable pub by_openid : Result (List ℕ) → Text → Text → Result Text × Store → Result Text × Store
by_openid random openid unionid (ok x, s) = with_union unionid x s
by_openid random openid unionid (err e, s) =
    if not (is_no_rows e)
    then (err e, s)
    else if is_nil unionid
    then by_creation random openid unionid s
    else by_unionid random openid unionid (lookup_user_id wechat_union unionid s)

-- `ResolveWeChatUser`.
unfoldable pub resolve_wechat_user : Result (List ℕ) → Text → Text → Store → Result Text × Store
resolve_wechat_user random openid unionid s =
    if not s.connected
    then (err (failure (codes "identity store not configured")), s)
    else if is_nil openid
    then (err (failure (codes "openid required")), s)
    else by_openid random openid unionid (lookup_user_id wechat_mp openid s)
