-- ===== src/Oidc/Laws.antt =====
-- What an exchange of a code guarantees.
use ting_boundless.Gateway.Bff.{Tokens}
use ting_boundless.Base.{
  ==_iff, subst, ap, ℕ, arith, Bool-cases, ◌==◌, inr, inl, is_nil, take, Text, ◌≡◌, false, true,
}
use ting_boundless.Base.Results.{ok_eq, Result, err, ok}
use ting_boundless.Oidc.{
  read_tokens, token_response, tokens_of, response_limit, exchange_values, ready, ClientConfig,
  Provider, exchange_code,
}

tokens_of-ok :
    (r : Result Tokens) (t : Tokens)
    → tokens_of r ≡ ok t
    → (r ≡ ok t) × (is_nil t.access_token ≡ false)
unfolding tokens_of
tokens_of-ok (err e) t h = absurd (ground (arith, h))
tokens_of-ok (ok u) t h = elim (Bool-cases (is_nil u.access_token)) [
  | inl b ↦ absurd (ground (arith, b, h))
  | inr b ↦
      let e : u ≡ t = ok_eq (ground (arith, b, h)) in
      (ap (λ v. ok v) e, subst (λ v. is_nil v.access_token ≡ false) e b)
]

-- The response of which a result was read.
abbrev IsAnswer : Provider → Tokens → Result (ℕ × Result Text) → Type 0
IsAnswer p t r =
    (raw : Text) × (r ≡ ok (200, ok raw))
    × (p.decode_tokens (take response_limit raw) ≡ ok t)
    × (is_nil t.access_token ≡ false)

token_response-ok :
    (p : Provider) (r : Result (ℕ × Result Text)) (t : Tokens)
    → token_response p r ≡ ok t
    → IsAnswer p t r
unfolding token_response read_tokens
token_response-ok p (err e) t h = absurd (ground (arith, h))
token_response-ok p (ok (status, err e)) t h = absurd (ground (arith, h))
token_response-ok p (ok (status, ok raw)) t h = elim (Bool-cases (status == 200)) [
  | inr b ↦ absurd (ground (arith, b, h))
  | inl b ↦
      let (d, n) =
        tokens_of-ok (p.decode_tokens (take response_limit raw)) t (ground (arith, b, h)) in
      (raw, ap (λ s. ok (s, ok raw)) ((==_iff status 200).0 b), d, n)
]

-- An exchange that yields tokens was made by a configured client with the code, its own credentials and
-- its redirect URI, was answered 200 by the token endpoint, and yields an access token that is not empty.
pub exchange_code-ok :
    (p : Provider) (c : ClientConfig) (code : Text) (t : Tokens)
    → exchange_code p c code ≡ ok t
    → (raw : Text) × (ready c ≡ true)
      × (p.post_form c.token_url (p.encode_form (exchange_values c code)) ≡ ok (200, ok raw))
      × (p.decode_tokens (take response_limit raw) ≡ ok t)
      × (is_nil t.access_token ≡ false)
unfolding exchange_code
exchange_code-ok p c code t h = elim (Bool-cases (ready c)) [
  | inr b ↦ absurd (ground (arith, b, h))
  | inl b ↦
      let (raw, r, d, n) =
        token_response-ok p (p.post_form c.token_url (p.encode_form (exchange_values c code))) t
          (ground (arith, b, h)) in
      (raw, b, r, d, n)
]
