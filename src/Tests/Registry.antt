-- ===== src/Tests/Registry.antt =====
-- The identity store: another process creates the same identity between the lookup and the creation.
use ting_boundless.Accounts.Wechat.{
  raced, resolve_wechat_user, raced_openid, raced_union, by_openid, by_unionid, by_creation,
  create_wechat_user, then_union, with_union,
}
use ting_boundless.Tests.Fixtures.{texts_compute}
use ting_boundless.Accounts.Api.{
  LoginConfig, login, login_configured, with_code, with_session, with_account, issued, login_event,
}
use ting_boundless.Accounts.Api.Laws.{Session, login-Session}
use ting_boundless.Accounts.Growth.{here, Maps, HasUser}
use ting_boundless.Base.Results.{is_no_rows, Result, ok, answered}
use ting_boundless.Accounts.{
  insert_unless, link_row, link_identity, write, writes, looked_again, is_unique_violation,
  create_unless, create_rows, with_user, new_user_id, create_user, create_user_with_provider,
  has_key, find_user, found, turn_of, run, lookup_user_id, looked_up, created, finished, register,
  Store, Tables, Turn, Entry, resolve_provider_user,
}
use ting_boundless.Base.{String, ℕ, Text, List, codes, ◌∷◌, ◌≡◌, refl, true, some, []}
use ting_boundless.Accounts.Validity.{IsValid}
use ting_boundless.Accounts.Laws.{resolve_provider_user-Maps, resolve_provider_user_agrees}
use ting_boundless.Accounts.Progress.{resolve_provider_user-Progress, Progress}
use ting_boundless.Trace.{hex}
use ting_boundless.Accounts.WechatLaws.{resolve_wechat_user-MapsEither, MapsEither}

abbrev bob : Entry
bob = record { provider = codes "logto"; uid = codes "s1"; user = codes "bob" }

abbrev no_rows_yet : Tables
no_rows_yet = record { users = []; entries = [] }

abbrev quiet : Turn
quiet = record { before = []; fate = answered }

abbrev busy : Turn
busy = record { before = register bob ∷ []; fate = answered }

abbrev race : Store
race = record { connected = true; tables = no_rows_yet; turns = quiet ∷ busy ∷ [] }

abbrev random : Result (List ℕ)
random = ok (10 ∷ [])

abbrev outcome : Result Text × Store
outcome = resolve_provider_user random (codes "logto") (codes "s1") race

registry_computes : Unit {0}
unfolding texts_compute resolve_provider_user looked_up lookup_user_id run turn_of finished found
    find_user has_key created create_user_with_provider create_user new_user_id hex with_user
    create_rows create_unless is_unique_violation looked_again writes write resolve_wechat_user
    by_openid by_unionid by_creation create_wechat_user then_union with_union link_identity link_row
    insert_unless raced raced_openid raced_union is_no_rows login login_configured with_code
    with_session with_account issued login_event
registry_computes = tt

resolve_provider_user-Maps_example :
    IsValid outcome.1.tables
    × ((x : Text)
        → outcome.0 ≡ ok x
        → Maps (codes "logto") (codes "s1") x outcome.1.tables × HasUser x outcome.1.tables)
resolve_provider_user-Maps_example =
    resolve_provider_user-Maps random (codes "logto") (codes "s1") race (tt, tt, tt)

resolve_provider_user_agrees_example : codes "bob" ≡ codes "bob"
unfolding registry_computes
resolve_provider_user_agrees_example =
    resolve_provider_user_agrees (codes "logto") (codes "s1") random random race outcome.1 refl here
      refl

resolve_provider_user-Progress_example :
    Progress (codes "logto") (codes "s1") (hex (10 ∷ [])) outcome
unfolding codes
resolve_provider_user-Progress_example =
    resolve_provider_user-Progress (codes "logto") (codes "s1") (10 ∷ []) race refl refl refl
      (refl, (refl, tt))

abbrev wechat : Result Text × Store
wechat = resolve_wechat_user random (codes "o1") (codes "u1") race

resolve_wechat_user-MapsEither_example :
    IsValid wechat.1.tables
    × ((x : Text)
        → wechat.0 ≡ ok x
        → MapsEither (codes "o1") (codes "u1") x wechat.1.tables × HasUser x wechat.1.tables)
resolve_wechat_user-MapsEither_example =
    resolve_wechat_user-MapsEither random (codes "o1") (codes "u1") race (tt, tt, tt)

abbrev login_config : LoginConfig
login_config = record {
  code2session = some (λ code. ok (record { openid = codes "o1"; unionid = codes "u1" }));
  has_identities = true;
  access_token = some (λ x tenant roles ttl. ok (codes "t"));
  has_audit = true;
  ttl = 3600;
}

login-Session_example :
    Session login_config
      (λ body. ok body)
      random
      []
      (codes "c")
      race
      (codes "t")
      (codes "0a")
      (login login_config (λ body. ok body) random [] (codes "c") race)
unfolding registry_computes
login-Session_example =
    login-Session login_config (λ body. ok body) random [] (codes "c") race {token = codes "t"}
      {x = codes "0a"} {expires = 3600} (tt, tt, tt) refl

-- Two mini-programs of one union id get two users, when the first one came without it.
abbrev mini : String → String → Entry
mini openid x = record { provider = codes "wechat_mp"; uid = codes openid; user = codes x }

abbrev first_tables : Tables
first_tables = record { users = codes "01" ∷ []; entries = mini "o1" "01" ∷ [] }

abbrev second_tables : Tables
second_tables = record {
  users = codes "02" ∷ codes "01" ∷ [];
  entries =
      record { provider = codes "wechat_union"; uid = codes "u1"; user = codes "02" }
      ∷ mini "o2" "02"
      ∷ mini "o1" "01"
      ∷ [];
}

abbrev visit : ℕ → String → String → Tables → Result Text × Store
visit byte openid unionid t =
    resolve_wechat_user (ok (byte ∷ [])) (codes openid) (codes unionid)
      (record { connected = true; tables = t; turns = [] })

first_visit : (visit 1 "o1" "" no_rows_yet).1.tables ≡ first_tables
unfolding registry_computes
first_visit = refl

second_visit : (visit 2 "o2" "u1" first_tables).1.tables ≡ second_tables
unfolding registry_computes
second_visit = refl

third_visit : (visit 3 "o1" "u1" second_tables).0 ≡ ok (codes "01")
unfolding registry_computes
third_visit = refl
