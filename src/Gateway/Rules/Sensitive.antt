-- ===== src/Gateway/Rules/Sensitive.antt =====
-- Which paths the revocation check covers, and the one way to switch it off.
use ting_boundless.Base.{
  text_eq_iff, codes, has_prefix, arith, split, All, List, trim_space, is_nil, Text, ◌∷◌, ◌↔◌, ◌⊎◌,
  ◌≢◌, ◌≡◌, refl, false, [],
}
use ting_boundless.Gateway.Rules.{
  env, Environment, default_sensitive_env, parse_sensitive_prefixes, rooted,
  resolve_sensitive_prefixes, sensitive_parts,
}

abbrev pub IsBlank : Text → Type 0
IsBlank part = trim_space part ≡ []

sensitive_parts-eq-nil_iff : (parts : List Text) → (sensitive_parts parts ≡ []) ↔ All IsBlank parts
unfolding sensitive_parts
sensitive_parts-eq-nil_iff [] = (λ h. tt, λ h. refl)
sensitive_parts-eq-nil_iff (part ∷ parts) = ground (arith, sensitive_parts-eq-nil_iff parts)

-- What the default rules compute with.
sensitive_computes : Unit {0}
unfolding sensitive_parts rooted split trim_space has_prefix codes
sensitive_computes = tt

default_sensitive :
    (is_nil (trim_space default_sensitive_env) ≡ false)
    × (is_nil (sensitive_parts (split default_sensitive_env b',')) ≡ false)
unfolding sensitive_computes
default_sensitive = (refl, refl)

-- The revocation check is off for every path exactly if GATEWAY_SENSITIVE_PREFIXES is "-", is
-- "none", or is not blank but has only blank parts between its commas. A variable that is unset or
-- empty does not switch it off.
pub sensitive_off_iff :
    (e : Environment)
    → let raw = env e (codes "GATEWAY_SENSITIVE_PREFIXES") [] in
      (resolve_sensitive_prefixes e ≡ []) ↔ (
        (raw ≡ codes "-")
        ⊎ (raw ≡ codes "none")
        ⊎ (trim_space raw ≢ []) × All IsBlank (split (trim_space raw) b','))
unfolding resolve_sensitive_prefixes parse_sensitive_prefixes
sensitive_off_iff e =
    let raw = env e (codes "GATEWAY_SENSITIVE_PREFIXES") [] in
    ground (
      arith,
      text_eq_iff raw (codes "-"),
      text_eq_iff raw (codes "none"),
      sensitive_parts-eq-nil_iff (split (trim_space raw) b','),
      default_sensitive,
    )
