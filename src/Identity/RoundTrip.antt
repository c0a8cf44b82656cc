-- ===== src/Identity/RoundTrip.antt =====
-- What a service reads back from the headers that the Gateway injected.
use ting_boundless.Base.{
  inl, sym, ◌≡◌, refl, ap, ◌∙◌, ◌≢◌, not, List, [], ◌∷◌, map, Text, Lacks, All, keep, is_nil,
  trim_space, split, join, split-join,
}
use ting_boundless.Http.{
  x_auth_subject, x_scopes, x_roles, x_tenant_id, x_user_id, x_request_id, set, HeaderName, Headers,
}
use ting_boundless.Identity.{Identity, strip_untrusted, inject, split_csv, from_headers}
use ting_boundless.Identity.Laws.{IsReady, IsForeign, strip_untrusted-IsStripped, get-inject}
use ting_boundless.Http.Laws.{get-set_ne}

-- A role or scope that survives the comma-separated header: not empty, no comma, no space at its
-- ends.
abbrev pub IsClean : Text → Type 0
IsClean p = (p ≢ []) × Lacks b',' p × (trim_space p ≡ p)

trim_keep_clean :
    (ps : List Text) → All IsClean ps → keep (λ p. not (is_nil p)) (map trim_space ps) ≡ ps
unfolding keep
trim_keep_clean [] h = refl
trim_keep_clean ([] ∷ ps) ((n, l, t), hs) = absurd (n refl)
trim_keep_clean ((c ∷ p) ∷ ps) ((n, l, t), hs) =
    rw t (ap (λ r. (c ∷ p) ∷ r) (trim_keep_clean ps hs))

Lacks-of_IsClean : (ps : List Text) → All IsClean ps → All (Lacks b',') ps
Lacks-of_IsClean [] h = tt
Lacks-of_IsClean (p ∷ ps) ((_, l, _), hs) = (l, Lacks-of_IsClean ps hs)

join-ne-nil : (p : Text) (ps : List Text) → p ≢ [] → join (p ∷ ps) b',' ≢ []
unfolding join
join-ne-nil [] ps h = absurd (h refl)
join-ne-nil (c ∷ p) [] h = cc
join-ne-nil (c ∷ p) (q ∷ ps) h = cc

split_csv_of_ne :
    (s : Text) → s ≢ [] → split_csv s ≡ keep (λ p. not (is_nil p)) (map trim_space (split s b','))
unfolding split_csv
split_csv_of_ne [] h = absurd (h refl)
split_csv_of_ne (c ∷ s) h = refl

-- A list of clean items is read back as it was written.
pub split_csv-join : (ps : List Text) → All IsClean ps → split_csv (join ps b',') ≡ ps
split_csv-join [] h = unfold split_csv join in refl
split_csv-join (p ∷ ps) h =
    split_csv_of_ne _ (join-ne-nil p ps h.0.0)
    ∙ ap (λ l. keep (λ q. not (is_nil q)) (map trim_space l))
        (split-join b',' p ps (Lacks-of_IsClean (p ∷ ps) h))
    ∙ trim_keep_clean (p ∷ ps) h

-- What the services see of an identity: its roles and scopes pass through one comma-separated text.
abbrev pub seen : Identity → Identity
seen id = record id {
  roles = split_csv (join id.roles b',');
  scopes = split_csv (join id.scopes b',');
}

pub from_headers-inject :
    (id : Identity) (h : Headers) → IsReady id h → from_headers (inject id h) ≡ seen id
unfolding from_headers
from_headers-inject id h s =
    let (r, u, t, ro, sc, su) = get-inject id h s in
    λ i. record {
      request_id = r i;
      user_id = u i;
      tenant_id = t i;
      roles = split_csv (ro i);
      scopes = split_csv (sc i);
      subject = su i;
    }

-- Whatever identity headers a client sends, after the Gateway has stripped them and injected a
-- verified identity a service reads that identity back, each role list and scope list passed through
-- the comma-separated header.
pub from_headers-inject-strip :
    (id : Identity) (h : Headers) → from_headers (inject id (strip_untrusted h)) ≡ seen id
from_headers-inject-strip id h =
    let (r, u, t, ro, sc, su) = strip_untrusted-IsStripped h in
    from_headers-inject id (strip_untrusted h) (inl r, u, t, ro, sc, su)

-- If no role and no scope is empty, holds a comma or has space at its ends, a service reads back
-- exactly the identity that the Gateway verified, whatever identity headers the client sent.
pub identity_round_trip :
    (id : Identity) (h : Headers)
    → All IsClean id.roles
    → All IsClean id.scopes
    → from_headers (inject id (strip_untrusted h)) ≡ id
identity_round_trip id h roles scopes = from_headers-inject-strip id h ∙ (λ i. record id {
  roles = split_csv-join id.roles roles i;
  scopes = split_csv-join id.scopes scopes i;
})

-- A header field that is none of the six does not matter to the identity that is read.
pub from_headers-set_foreign :
    (h : Headers) (k : HeaderName) (v : Text)
    → IsForeign k
    → from_headers (set h k v) ≡ from_headers h
unfolding from_headers
from_headers-set_foreign h k v (r, u, t, ro, sc, su) = λ i. record {
  request_id = get-set_ne h k x_request_id v (λ e. r (sym e)) i;
  user_id = get-set_ne h k x_user_id v (λ e. u (sym e)) i;
  tenant_id = get-set_ne h k x_tenant_id v (λ e. t (sym e)) i;
  roles = split_csv (get-set_ne h k x_roles v (λ e. ro (sym e)) i);
  scopes = split_csv (get-set_ne h k x_scopes v (λ e. sc (sym e)) i);
  subject = get-set_ne h k x_auth_subject v (λ e. su (sym e)) i;
}
