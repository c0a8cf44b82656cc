-- ===== src/Gateway/Rules.antt =====
-- The path rules of the Gateway: go/services/gateway/internal/auth/anon.go and sensitive.go.
pub mod Anonymous
pub mod Sensitive
use ting_boundless.Base.{
  text_eq, drop, any, codes, is_nil, split, trim_space, has_prefix, Bool, Text, List, ◌||◌, ◌&&◌,
  ◌++◌, ◌∷◌, if◌then◌else◌, true, [],
}
use ting_boundless.Httpx.{env, Environment}

-- `AnonPrefixes`.
pub record AnonPrefixes : Type 0 where
  pub exact : List Text
  pub prefix : List Text

-- `"/" + path`, unless the path starts so.
unfoldable pub rooted : Text → Text
rooted path = if has_prefix path (codes "/") then path else codes "/" ++ path

unfoldable pub add_exact : Text → AnonPrefixes → AnonPrefixes
add_exact path out =
    if is_nil path then out else record out { exact = out.exact ++ (rooted path ∷ []) }

-- One round of the loop over the parts: `out.exact` and `out.prefix` grow at their ends.
unfoldable pub add_part : Text → AnonPrefixes → AnonPrefixes
add_part raw out =
    let part = trim_space raw in
    if is_nil part
    then out
    else if has_prefix part (codes "=")
    then add_exact (trim_space (drop 1 part)) out
    else record out { prefix = out.prefix ++ (rooted part ∷ []) }

unfoldable pub add_parts : List Text → AnonPrefixes → AnonPrefixes
add_parts [] out = out
add_parts (part ∷ parts) out = add_parts parts (add_part part out)

-- The loop of `ParseAnonPrefixes` over a text that is not blank.
unfoldable pub parse_parts : Text → AnonPrefixes
parse_parts raw = add_parts (split raw b',') (record { exact = []; prefix = [] })

-- `IsEmpty`.
unfoldable pub is_empty : AnonPrefixes → Bool
is_empty p = is_nil p.exact && is_nil p.prefix

-- `defaultAnonEnv`.
abbrev pub default_anon_env : Text
default_anon_env =
    codes
      "=/healthz,=/readyz,=/metrics,=/sign-in,=/callback,=/sign-out,=/internal/webhooks/logto,=/,/v1/business/ping,/admin,/v1/auth/"

-- `ParseAnonPrefixes(defaultAnonEnv)`, which has rules and so makes no further call.
unfoldable pub default_anon_prefixes : AnonPrefixes
default_anon_prefixes = parse_parts default_anon_env

-- `ParseAnonPrefixes`.
unfoldable pub parse_anon_prefixes : Text → AnonPrefixes
parse_anon_prefixes text =
    let raw = trim_space text in
    if is_nil raw
    then default_anon_prefixes
    else if is_empty (parse_parts raw)
    then default_anon_prefixes
    else parse_parts raw

-- `withExact`.
unfoldable pub with_exact : Text → AnonPrefixes → AnonPrefixes
with_exact path p =
    if any (λ e. text_eq e path) p.exact then p else record p { exact = p.exact ++ (path ∷ []) }

-- `ResolveAnonPrefixes`.
unfoldable pub resolve_anon_prefixes : Environment → AnonPrefixes
resolve_anon_prefixes e =
    let rules = parse_anon_prefixes (env e (codes "GATEWAY_ANON_PREFIXES") []) in
    if text_eq (env e (codes "GATEWAY_BFF_DEV_LOGIN") []) (codes "true")
    then with_exact (codes "/sign-in/dev") rules
    else rules

-- `Allows`.
unfoldable pub allows : AnonPrefixes → Text → Bool
allows p path =
    if any (λ e. text_eq path e) p.exact then true else any (λ q. has_prefix path q) p.prefix

-- `SensitivePrefixes` is its list of prefixes; one round of the loop of `ParseSensitivePrefixes`.
unfoldable pub sensitive_parts : List Text → List Text
sensitive_parts [] = []
sensitive_parts (raw ∷ parts) =
    let rest = sensitive_parts parts in
    if is_nil (trim_space raw) then rest else rooted (trim_space raw) ∷ rest

-- `defaultSensitiveEnv`.
abbrev pub default_sensitive_env : Text
default_sensitive_env = codes "/v1/files/"

-- `ParseSensitivePrefixes`.
unfoldable pub parse_sensitive_prefixes : Text → List Text
parse_sensitive_prefixes text =
    let raw = trim_space text in
    sensitive_parts (split (if is_nil raw then default_sensitive_env else raw) b',')

-- `ResolveSensitivePrefixes`.
unfoldable pub resolve_sensitive_prefixes : Environment → List Text
resolve_sensitive_prefixes e =
    let raw = env e (codes "GATEWAY_SENSITIVE_PREFIXES") [] in
    if text_eq raw (codes "-") || text_eq raw (codes "none")
    then []
    else parse_sensitive_prefixes raw

-- `RequiresRevocationCheck`.
unfoldable pub requires_revocation_check : List Text → Text → Bool
requires_revocation_check prefixes path = any (λ q. has_prefix path q) prefixes
