-- ===== src/Identity/Laws.antt =====
-- Stripping and injecting identity headers.
use ting_boundless.Base.{◌⊎◌, inr, inl, ◌≡◌, refl, ◌∙◌, ◌≢◌, Text, [], ◌∷◌, arith, join}
use ting_boundless.Http.{
  HeaderName, Headers, get, del, x_request_id, x_user_id, x_tenant_id, x_roles, x_scopes,
  x_auth_subject,
}
use ting_boundless.Http.Laws.{get-set_self, get-set_ne, get-del_ne}
use ting_boundless.Identity.{Identity, strip_untrusted, set_non_empty, inject}

-- A field is an identity field or none of the six.
abbrev pub IsForeign : HeaderName → Type 0
IsForeign k =
    (x_request_id ≢ k)
    × (x_user_id ≢ k)
    × (x_tenant_id ≢ k)
    × (x_roles ≢ k)
    × (x_scopes ≢ k)
    × (x_auth_subject ≢ k)

pub get-set_non_empty_self :
    (h : Headers) (k : HeaderName) (v : Text) → get h k ≡ [] → get (set_non_empty h k v) k ≡ v
unfolding set_non_empty
get-set_non_empty_self h k [] e = e
get-set_non_empty_self h k (c ∷ v) e = get-set_self h k (c ∷ v)

pub get-set_non_empty_ne :
    (h : Headers) (k j : HeaderName) (v : Text) → k ≢ j → get (set_non_empty h k v) j ≡ get h j
unfolding set_non_empty
get-set_non_empty_ne h k j [] n = refl
get-set_non_empty_ne h k j (c ∷ v) n = get-set_ne h k j (c ∷ v) n

-- None of the six identity fields has a value.
abbrev pub IsStripped : Headers → Type 0
IsStripped h =
    (get h x_request_id ≡ [])
    × (get h x_user_id ≡ [])
    × (get h x_tenant_id ≡ [])
    × (get h x_roles ≡ [])
    × (get h x_scopes ≡ [])
    × (get h x_auth_subject ≡ [])

pub strip_untrusted-IsStripped : (h : Headers) → IsStripped (strip_untrusted h)
unfolding strip_untrusted del get
strip_untrusted-IsStripped h = (refl, refl, refl, refl, refl, refl)

pub get-strip_untrusted_foreign :
    (h : Headers) (k : HeaderName) → IsForeign k → get (strip_untrusted h) k ≡ get h k
unfolding strip_untrusted
get-strip_untrusted_foreign h k f =
    get-del_ne _ x_request_id k f.0
    ∙ get-del_ne _ x_auth_subject k f.5
    ∙ get-del_ne _ x_scopes k f.4
    ∙ get-del_ne _ x_roles k f.3
    ∙ get-del_ne _ x_tenant_id k f.2
    ∙ get-del_ne h x_user_id k f.1

pub get-inject_foreign :
    (id : Identity) (h : Headers) (k : HeaderName) → IsForeign k → get (inject id h) k ≡ get h k
unfolding inject
get-inject_foreign id h k f =
    get-set_non_empty_ne _ x_auth_subject k _ f.5
    ∙ get-set_non_empty_ne _ x_scopes k _ f.4
    ∙ get-set_non_empty_ne _ x_roles k _ f.3
    ∙ get-set_non_empty_ne _ x_tenant_id k _ f.2
    ∙ get-set_non_empty_ne _ x_user_id k _ f.1
    ∙ get-set_non_empty_ne h x_request_id k _ f.0

-- The headers are ready for an identity: the five fields of the identity proper are empty, and the
-- request id is empty or the identity's.
abbrev pub IsReady : Identity → Headers → Type 0
IsReady id h =
    ((get h x_request_id ≡ []) ⊎ (get h x_request_id ≡ id.request_id))
    × (get h x_user_id ≡ [])
    × (get h x_tenant_id ≡ [])
    × (get h x_roles ≡ [])
    × (get h x_scopes ≡ [])
    × (get h x_auth_subject ≡ [])

get-set_non_empty_same :
    (h : Headers) (k : HeaderName) (v : Text)
    → (get h k ≡ []) ⊎ (get h k ≡ v)
    → get (set_non_empty h k v) k ≡ v
unfolding set_non_empty
get-set_non_empty_same h k [] (inl e) = e
get-set_non_empty_same h k [] (inr e) = e
get-set_non_empty_same h k (c ∷ v) e = get-set_self h k (c ∷ v)

ruleset set_laws = (get-set_non_empty_ne, get-set_non_empty_self, get-set_non_empty_same)

pub get-inject :
    (id : Identity) (h : Headers)
    → IsReady id h
    → (get (inject id h) x_request_id ≡ id.request_id)
      × (get (inject id h) x_user_id ≡ id.user_id)
      × (get (inject id h) x_tenant_id ≡ id.tenant_id)
      × (get (inject id h) x_roles ≡ join id.roles b',')
      × (get (inject id h) x_scopes ≡ join id.scopes b',')
      × (get (inject id h) x_auth_subject ≡ id.subject)
unfolding inject
get-inject id h s = (
  grind (arith, set_laws),
  grind (arith, set_laws),
  grind (arith, set_laws),
  grind (arith, set_laws),
  grind (arith, set_laws),
  grind (arith, set_laws),
)
