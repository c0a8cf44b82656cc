-- ===== src/Httpx/Guards.antt =====
-- Who reaches a handler behind RequireRole, and the identity that a service behind the Gateway sees.
use ting_boundless.Base.{
  ◌++◌, codes, ◌⊎◌, some, Option, ◌≡◌, refl, ◌≢◌, ◌↔◌, true, [], ◌∷◌, Text, text_eq, text_eq_iff,
  text_eq_refl, any_of_mem, mem_of_any, arith, subst,
}
use mathlib.Core.List.{Memᴰ}
use ting_boundless.Identity.{from_headers, authenticated, Identity, has_role}
use ting_boundless.Http.{unauthorized, forbidden, write_error, Request, ErrorReply}
use ting_boundless.Httpx.{trusted_role, Handler}

-- `HasRole` holds exactly of a role that is not empty and is listed.
pub has_role_iff :
    (id : Identity) (role : Text) → (has_role id role ≡ true) ↔ ((role ≢ []) × Memᴰ role id.roles)
has_role_iff id [] = (λ h. absurd (unfold has_role in ground arith), λ h. absurd (h.0 refl))
has_role_iff id (c ∷ role) = (to, from)
  where
    to : has_role id (c ∷ role) ≡ true → ((c ∷ role) ≢ []) × Memᴰ (c ∷ role) id.roles
    to h =
        let (r, m, e) = mem_of_any (λ r. text_eq r (c ∷ role)) id.roles (unfold has_role in h) in
        (cc, subst (λ t. Memᴰ t id.roles) ((text_eq_iff r (c ∷ role)).0 e) m)

    from : ((c ∷ role) ≢ []) × Memᴰ (c ∷ role) id.roles → has_role id (c ∷ role) ≡ true
    from h =
        unfold has_role in
        any_of_mem (λ r. text_eq r (c ∷ role)) id.roles h.1 (text_eq_refl (c ∷ role))

module _ {R : Type 0} (reply : ErrorReply → R) (role : Text) (next : Handler R) where
  -- Behind `TrustedRole` there are three cases, each with its outcome: the injected identity has a
  -- user and lists the role, and the handler runs with that identity; it has a user without the
  -- role, and 403 is answered; it has no user, and 401 is answered.
  pub trusted_role_cases :
      (ctx : Option Identity) (r : Request)
      → let id = from_headers r.headers in
        ((id.user_id ≢ [])
          × (role ≢ [])
          × Memᴰ role id.roles
          × (trusted_role reply role next ctx r ≡ next (some id) r))
        ⊎ (id.user_id ≢ [])
          × ¬ ((role ≢ []) × Memᴰ role id.roles)
          × (trusted_role reply role next ctx r
              ≡ reply (
                  write_error id.request_id
                    (forbidden (codes "forbidden") (role ++ codes " role required"))))
        ⊎ (id.user_id ≡ [])
          × (trusted_role reply role next ctx r
              ≡ reply (
                  write_error id.request_id
                    (unauthorized (codes "unauthenticated") (codes "authentication required"))))
  unfolding trusted_role authenticated
  trusted_role_cases ctx r = grind (arith, has_role_iff (from_headers r.headers) role)
