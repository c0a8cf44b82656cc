-- ===== src/Session/Coding.antt =====
-- A codec that meets the interface: each text is led by its length.
use ting_boundless.Session.{Data, PendingLogin, Codec}
use ting_boundless.Base.Results.{Result, ok}
use ting_boundless.Base.{
  append_assoc, ◌∙◌, ap, drop, take, length, Option, ℕ, List, Text, ◌++◌, ◌∷◌, ◌≡◌, refl, some,
  none, suc, zero, [],
}

unfoldable pub enc_text : Text → Text
enc_text t = length t ∷ t

unfoldable pub dec_text : Text → Text × Text
dec_text [] = ([], [])
dec_text (n ∷ t) = (take n t, drop n t)

take-length-append : (t r : Text) → take (length t) (t ++ r) ≡ t
take-length-append [] r = refl
take-length-append (c ∷ t) r = ap (λ u. c ∷ u) (take-length-append t r)

drop-length-append : (t r : Text) → drop (length t) (t ++ r) ≡ r
drop-length-append [] r = refl
drop-length-append (c ∷ t) r = drop-length-append t r

pub dec_text-enc : (t r : Text) → dec_text (enc_text t ++ r) ≡ (t, r)
unfolding dec_text enc_text
dec_text-enc t r = λ i. (take-length-append t r i, drop-length-append t r i)

enc_items : List Text → Text
unfolding enc_text
enc_items [] = []
enc_items (t ∷ ts) = enc_text t ++ enc_items ts

dec_items : ℕ → Text → List Text × Text
unfolding dec_text
dec_items zero r = ([], r)
dec_items (suc n) r = let (t, r1) = dec_text r in let (ts, r2) = dec_items n r1 in (t ∷ ts, r2)

dec_items-enc : (ts : List Text) (r : Text) → dec_items (length ts) (enc_items ts ++ r) ≡ (ts, r)
unfolding dec_items enc_items
dec_items-enc [] r = refl
dec_items-enc (t ∷ ts) r =
    ap (dec_items (suc (length ts))) (append_assoc (enc_text t) (enc_items ts) r)
    ∙ ap (λ q. (q.0 ∷ (dec_items (length ts) q.1).0, (dec_items (length ts) q.1).1))
        (dec_text-enc t (enc_items ts ++ r))
    ∙ ap (λ q. (t ∷ q.0, q.1)) (dec_items-enc ts r)

enc_texts : List Text → Text
unfolding enc_items
enc_texts ts = length ts ∷ enc_items ts

dec_texts : Text → List Text × Text
unfolding dec_items
dec_texts [] = ([], [])
dec_texts (n ∷ r) = dec_items n r

dec_texts-enc : (ts : List Text) (r : Text) → dec_texts (enc_texts ts ++ r) ≡ (ts, r)
unfolding dec_texts enc_texts
dec_texts-enc ts r = dec_items-enc ts r

abbrev enc_time : Option ℕ → Text
enc_time none = []
enc_time (some n) = n ∷ []

dec_time : Text → Option ℕ
dec_time [] = none
dec_time (n ∷ _) = some n

dec_time-enc : (o : Option ℕ) → dec_time (enc_time o) ≡ o
unfolding dec_time enc_time
dec_time-enc none = refl
dec_time-enc (some n) = refl

abbrev fields_of : Data → List Text
fields_of d =
    d.access_token
    ∷ d.refresh_token
    ∷ d.identity.request_id
    ∷ d.identity.user_id
    ∷ d.identity.tenant_id
    ∷ d.identity.subject
    ∷ enc_time d.expires_at
    ∷ []

unfoldable pub encode : Data → Text
unfolding enc_texts
encode d =
    enc_texts d.identity.roles ++ (enc_texts d.identity.scopes ++ (enc_texts (fields_of d) ++ []))

empty_or_first : List Text → Text
empty_or_first [] = []
empty_or_first (t ∷ ts) = t

abbrev nth : ℕ → List Text → Text
nth n ts = empty_or_first (drop n ts)

of_fields : List Text → List Text → List Text → Data
unfolding dec_time empty_or_first
of_fields roles scopes fs = record {
  access_token = nth 0 fs;
  refresh_token = nth 1 fs;
  identity = record {
    request_id = nth 2 fs;
    user_id = nth 3 fs;
    tenant_id = nth 4 fs;
    roles = roles;
    scopes = scopes;
    subject = nth 5 fs;
  };
  expires_at = dec_time (nth 6 fs);
}

unfoldable pub decode : Text → Result Data
unfolding dec_texts of_fields
decode t =
    let (roles, t1) = dec_texts t in
    let (scopes, t2) = dec_texts t1 in ok (of_fields roles scopes (dec_texts t2).0)

pub decode-encode : (d : Data) → decode (encode d) ≡ ok d
unfolding decode encode
decode-encode d =
    let rest = enc_texts (fields_of d) ++ [] in
    ap (λ q. ok (of_fields q.0 (dec_texts q.1).0 (dec_texts (dec_texts q.1).1).0))
      (dec_texts-enc d.identity.roles (enc_texts d.identity.scopes ++ rest))
    ∙ ap (λ q. ok (of_fields d.identity.roles q.0 (dec_texts q.1).0))
        (dec_texts-enc d.identity.scopes rest)
    ∙ ap (λ q. ok (of_fields d.identity.roles d.identity.scopes q.0))
        (dec_texts-enc (fields_of d) [])
    ∙ (λ i. ok (record d { expires_at = dec_time-enc d.expires_at i }))

unfoldable pub encode_pending : PendingLogin → Text
unfolding enc_texts
encode_pending p = enc_texts (p.return_to ∷ p.nonce ∷ []) ++ []

unfoldable pub decode_pending : Text → Result PendingLogin
unfolding dec_texts empty_or_first
decode_pending t = ok (record { return_to = nth 0 (dec_texts t).0; nonce = nth 1 (dec_texts t).0 })

pub decode_pending-encode_pending : (p : PendingLogin) → decode_pending (encode_pending p) ≡ ok p
unfolding decode_pending encode_pending
decode_pending-encode_pending p =
    ap (λ q. ok (record { return_to = nth 0 q.0; nonce = nth 1 q.0 }))
      (dec_texts-enc (p.return_to ∷ p.nonce ∷ []) [])

unfoldable pub length_codec : Codec
unfolding encode decode encode_pending decode_pending
length_codec = record {
  encode = encode;
  decode = decode;
  encode_pending = encode_pending;
  decode_pending = decode_pending;
  decode-encode = decode-encode;
  decode_pending-encode_pending = decode_pending-encode_pending;
}
