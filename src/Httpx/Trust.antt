-- ===== src/Httpx/Trust.antt =====
-- When a service takes a request for one of the Gateway's, and what its handler then sees.
use ting_boundless.Base.{
  ◌≡◌, refl, ap, ◌∙◌, ◌≢◌, ◌↔◌, ◌⊎◌, true, false, Option, [], ◌∷◌, ◌++◌, Text, codes, text_eq_iff,
  has_prefix, has_prefix-append, has_prefix-drop, trim_prefix, drop, length, arith,
}
use ting_boundless.Http.{
  Headers, Request, ErrorReply, write_error, unauthorized, get, x_internal_token, authorization,
  x_request_id,
}
use ting_boundless.Identity.{Identity}
use ting_boundless.Httpx.{bearer, internal_token_ok, Handler, gateway_trust, gateway_trust_skipped}

drop-length-append : (p s : Text) → drop (length p) (p ++ s) ≡ s
drop-length-append [] s = refl
drop-length-append (c ∷ p) s = drop-length-append p s

pub trim_prefix-append : (p t : Text) → trim_prefix (p ++ t) p ≡ t
unfolding trim_prefix
trim_prefix-append p t = rw (has_prefix-append p t) (drop-length-append p t)

pub append-trim_prefix : (s p : Text) → has_prefix s p ≡ true → s ≡ p ++ trim_prefix s p
unfolding trim_prefix
append-trim_prefix s p h = rw h (has_prefix-drop s p h)

-- A text with the prefix taken off is another text exactly when it is the prefix and that text.
pub trim_prefix-eq_iff :
    (s p t : Text) → (has_prefix s p ≡ true) × (trim_prefix s p ≡ t) ↔ (s ≡ p ++ t)
trim_prefix-eq_iff s p t = (
  λ k. append-trim_prefix s p k.0 ∙ ap (λ u. p ++ u) k.1,
  λ e. rw e (has_prefix-append p t, trim_prefix-append p t),
)

abbrev pub untrusted_reply : Request → ErrorReply
untrusted_reply r =
    write_error (get r.headers x_request_id)
      (unauthorized (codes "untrusted_caller") (codes "request must come through Gateway"))

-- The caller presents the token, in the header of its own or as a bearer token.
abbrev pub Presents : Headers → Text → Type 0
Presents h token = (get h x_internal_token ≡ token) ⊎ (get h authorization ≡ bearer ++ token)

-- `internalTokenOK` accepts exactly a request that presents the token.
pub internal_token_ok_iff :
    (h : Headers) (want : Text) → (internal_token_ok h want ≡ true) ↔ Presents h want
unfolding internal_token_ok
internal_token_ok_iff h want = ground (
  arith,
  text_eq_iff (get h x_internal_token) want,
  text_eq_iff (trim_prefix (get h authorization) bearer) want,
  trim_prefix-eq_iff (get h authorization) bearer want,
)

module _ {R : Type 0} (reply : ErrorReply → R) (token : Text) (next : Handler R) where
  -- A request that presents the token reaches the handler as it came; so does any request for one
  -- of the exempt paths.
  pub gateway_trust-Presents :
      (ctx : Option Identity) (r : Request)
      → Presents r.headers token ⊎ (gateway_trust_skipped r.path ≡ true)
      → gateway_trust reply token next ctx r ≡ next ctx r
  unfolding gateway_trust
  gateway_trust-Presents ctx r h = ground (arith, internal_token_ok_iff r.headers token)

  -- With a token configured, every other request is answered 401 and the handler is not called.
  pub gateway_trust_untrusted :
      (ctx : Option Identity) (r : Request)
      → token ≢ []
      → ¬ Presents r.headers token
      → gateway_trust_skipped r.path ≡ false
      → gateway_trust reply token next ctx r ≡ reply (untrusted_reply r)
  unfolding gateway_trust
  gateway_trust_untrusted ctx r t h p = ground (arith, internal_token_ok_iff r.headers token)
