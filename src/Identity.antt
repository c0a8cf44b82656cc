-- ===== src/Identity.antt =====
-- The identity context of go/pkg/identity (identity.go, auth.go, roles.go): the headers that the
-- Gateway strips and injects, and that the services read.
pub mod Laws
pub mod RoundTrip
use ting_boundless.Base.{
  Bool, true, false, not, List, [], ◌∷◌, map, Text, any, keep, is_nil, text_eq, trim_space, split,
  join, if◌then◌else◌, Option,
}
use ting_boundless.Http.{
  HeaderName, Headers, get, set, del, x_request_id, x_user_id, x_tenant_id, x_roles, x_scopes,
  x_auth_subject,
}

-- `Identity`.
pub record Identity : Type 0 where
  pub request_id : Text
  pub user_id : Text
  pub tenant_id : Text
  pub roles : List Text
  pub scopes : List Text
  pub subject : Text

-- `Identity{}`.
abbrev pub empty_identity : Identity
empty_identity = record {
  request_id = [];
  user_id = [];
  tenant_id = [];
  roles = [];
  scopes = [];
  subject = [];
}

-- `allHeaders`.
abbrev pub all_headers : List HeaderName
all_headers = x_user_id ∷ x_tenant_id ∷ x_roles ∷ x_scopes ∷ x_auth_subject ∷ x_request_id ∷ []

del_all : List HeaderName → Headers → Headers
del_all [] h = h
del_all (k ∷ ks) h = del_all ks (del h k)

-- `StripUntrusted`.
unfoldable pub strip_untrusted : Headers → Headers
unfolding del_all
strip_untrusted h = del_all all_headers h

-- `setNonEmpty`.
unfoldable pub set_non_empty : Headers → HeaderName → Text → Headers
set_non_empty h k v = if is_nil v then h else set h k v

-- `Identity.Inject`.
unfoldable pub inject : Identity → Headers → Headers
inject id h0 =
    let h1 = set_non_empty h0 x_request_id id.request_id in
    let h2 = set_non_empty h1 x_user_id id.user_id in
    let h3 = set_non_empty h2 x_tenant_id id.tenant_id in
    let h4 = set_non_empty h3 x_roles (join id.roles b',') in
    let h5 = set_non_empty h4 x_scopes (join id.scopes b',') in
    set_non_empty h5 x_auth_subject id.subject

-- `splitCSV`.
unfoldable pub split_csv : Text → List Text
split_csv s = if is_nil s then [] else keep (λ p. not (is_nil p)) (map trim_space (split s b','))

-- `FromHeaders`.
unfoldable pub from_headers : Headers → Identity
unfolding split_csv
from_headers h = record {
  request_id = get h x_request_id;
  user_id = get h x_user_id;
  tenant_id = get h x_tenant_id;
  roles = split_csv (get h x_roles);
  scopes = split_csv (get h x_scopes);
  subject = get h x_auth_subject;
}

-- `Identity.Authenticated`.
unfoldable pub authenticated : Identity → Bool
authenticated id = not (is_nil id.user_id)

-- `HasRole`.
unfoldable pub has_role : Identity → Text → Bool
has_role id role = if is_nil role then false else any (λ r. text_eq r role) id.roles
