-- ===== src/Tests/Logins.antt =====
-- Sessions, logins, signing out and the webhook.
use ting_boundless.Oidc.Login.{callback_over_client}
use ting_boundless.Oidc.{
  exchange_code, token_response, read_tokens, tokens_of, exchange_values, ready, oidc_client,
  ClientConfig, Provider, response_limit,
}
use ting_boundless.Session.{Codec, PendingLogin}
use ting_boundless.Session
use ting_boundless.Revocation
use ting_boundless.Redis.Model.{store_redis, Store}
use ting_boundless.Http.{Request, get, ErrorReply}
use ting_boundless.Base.{
  ◌^◌, ◌*◌, is_nil, take, arith, text_eq, Text, codes, ◌≡◌, ◌⊎◌, if◌then◌else◌, refl, false, true,
  some, none, [],
}
use ting_boundless.Base.Results.{Result, is_err, ok}
use ting_boundless.Session.Coding.{length_codec}
use ting_boundless.Tests.Fixtures.{
  alice_token, edge, blocklist, dev_verifier, empty_store, library, no_headers, sessions, alice,
  request_to, texts_compute,
}
use ting_boundless.Gateway.Bff.{
  login_data, session_created, token_verified, code_exchanged, pending_consumed, login_token,
  redirect, expires_at, session_cookie, callback, Cookie, Answer, Bff, Tokens,
}
use ting_boundless.Gateway.Authenticate.{
  deny, forward, authenticate, Outcome, identity_from_request,
}
use ting_boundless.Identity.{Identity}
use ting_boundless.Gateway.Rules.{requires_revocation_check}
use ting_boundless.Session.Laws.{get-create}
use ting_boundless.Session.Pending.{consume-save, consume_once, consume-save}
use ting_boundless.Gateway.Bff.Laws.{callback_redirect, created, IsLogin}
use ting_boundless.Gateway.Bff.Served.{login_then_request}
use ting_boundless.Jwt.{
  dev_key, scopes_claim, string_slice_claim, string_claim, map_claims, enabled,
  validate_standard_claims, validated, parse_with_hmac, verify_hmac, verify,
}
use ting_boundless.Gateway.Bff.Local.{sign_out}
use ting_boundless.Gateway.Bff.SignOut.{signed_out_denied, IsUnknown}

abbrev alice_session : Session.Data
alice_session = record {
  access_token = codes "k";
  refresh_token = [];
  identity = alice;
  expires_at = some (5 * 10 ^ 6);
}

abbrev with_session : Store
with_session =
    (Session.create store_redis length_codec sessions 5 (ok (codes "s1")) alice_session
      empty_store).1

sessions_compute : Unit {0}
unfolding texts_compute Session.create Session.get Session.save Session.save_ttl Session.delete
    Session.is_expired Session.save_pending Session.consume_pending
sessions_compute = tt

-- 600 nanoseconds later.
abbrev aged_session : Store
aged_session = store_redis.elapse 600 with_session

get-create_example :
    Session.get store_redis length_codec sessions 605 (codes "s1") aged_session
    ≡ (ok alice_session, aged_session)
unfolding sessions_compute
get-create_example =
    get-create store_redis length_codec sessions 5 600 (codes "s1") alice_session empty_store
      (λ h. cc) refl (omega arith) (omega arith) refl

abbrev pending : PendingLogin
pending = record { return_to = codes "/home"; nonce = codes "n" }

abbrev with_pending : Store
with_pending =
    (Session.save_pending store_redis length_codec sessions (codes "st") pending empty_store).1

pending_saved :
    (Session.consume_pending store_redis length_codec sessions (codes "st") with_pending).0
    ≡ ok pending
unfolding sessions_compute
pending_saved =
    consume-save store_redis length_codec sessions (codes "st") pending empty_store refl refl

consume_once_example :
    is_err
      (Session.consume_pending store_redis length_codec sessions
        (codes "st")
        (Session.consume_pending store_redis length_codec sessions (codes "st") with_pending).1).0
    ≡ true
unfolding sessions_compute
consume_once_example =
    consume_once store_redis length_codec sessions (codes "st") pending with_pending pending_saved
      refl

abbrev tokens : Tokens
tokens = record { access_token = codes "k"; id_token = []; refresh_token = []; expires_in = 0 }

abbrev bff : Bff
bff = record {
  oidc = record {
    ready = true;
    authorize_url = λ state nonce. ok state;
    exchange_code = λ code. ok tokens;
  };
  sessions = sessions;
  verifier = dev_verifier;
  revocations = some blocklist;
  dev_login = false;
  secure = true;
  parse_host = λ t. ok [];
  dev_token = λ u t r. ok (codes "k");
}

abbrev answer_to : Text → Text
answer_to k =
    if text_eq k (codes "code")
    then codes "c"
    else if text_eq k (codes "state")
    then codes "st"
    else []

abbrev callback_request : Request
callback_request = record (request_to "/callback" no_headers none) { query = answer_to }

abbrev logged_in : Answer × Store
logged_in =
    callback library store_redis length_codec bff 5 (ok (codes "s1")) callback_request with_pending

abbrev cookie : Cookie
cookie = session_cookie bff (codes "s1") (expires_at 5 0)

logins_compute : Unit {0}
unfolding sessions_compute callback expires_at login_token session_cookie verify verify_hmac
    parse_with_hmac validated validate_standard_claims enabled map_claims string_claim
    string_slice_claim scopes_claim dev_key library pending_consumed code_exchanged token_verified
    session_created
logins_compute = tt

logged_in_lem : logged_in ≡ (redirect (some cookie) (codes "/home"), logged_in.1)
unfolding logins_compute length_codec
logged_in_lem = refl

callback_redirect_example :
    (p : PendingLogin) × (t : Tokens) × (id : Identity) × (s1 : Store) × (sid : Text) × IsLogin
      library store_redis length_codec bff 5
      (ok (codes "s1"))
      callback_request
      with_pending
      p
      t
      id
      s1
    × (created library store_redis length_codec bff 5 (ok (codes "s1")) t id s1
        ≡ (ok sid, logged_in.1))
    × (cookie ≡ session_cookie bff sid (expires_at 5 t.expires_in))
    × (codes "/home" ≡ p.return_to)
callback_redirect_example =
    callback_redirect library store_redis length_codec bff 5 (ok (codes "s1")) callback_request
      with_pending cookie (codes "/home") logged_in.1 logged_in_lem

abbrev page_request : Request
page_request = request_to "/v1/files/7" no_headers (some (codes "s1"))

login_then_request_example :
    identity_from_request library store_redis length_codec page_request
      (some sessions)
      (some dev_verifier)
      5
      (store_redis.elapse 0 logged_in.1)
    ≡ (ok (alice, codes "s1"), store_redis.elapse 0 logged_in.1)
unfolding logins_compute
login_then_request_example =
    login_then_request library store_redis length_codec bff 5 0 (codes "s1") callback_request
      page_request with_pending cookie (codes "/home") logged_in.1 tokens alice logged_in_lem refl
      (λ h. cc) (omega arith) (omega arith) refl alice_token refl

abbrev no_host : Text → Result Text
no_host t = ok []

abbrev after_sign_out : Outcome
after_sign_out =
    (authenticate library store_redis length_codec edge 6 (codes "r2") page_request
      (sign_out library store_redis length_codec bff page_request logged_in.1).1).0

signed_out_denied_example :
    ((e : ErrorReply) × (after_sign_out ≡ deny e))
    ⊎ ((r' : Request) × (after_sign_out ≡ forward r')
        × IsUnknown library store_redis length_codec bff edge (codes "r2") page_request r')
unfolding texts_compute Revocation.put Revocation.revoke_session requires_revocation_check get
signed_out_denied_example =
    signed_out_denied library store_redis length_codec bff edge 6 blocklist (codes "r2")
      (codes "s1") page_request page_request logged_in.1 (λ h. cc) refl refl refl refl refl refl
      refl refl refl refl

-- The same login over the OIDC client.
abbrev configured : ClientConfig
configured = record {
  issuer = codes "i";
  client_id = codes "c";
  client_secret = codes "x";
  redirect_uri = codes "r";
  scopes = [];
  resource = [];
  auth_url = codes "a";
  token_url = codes "t";
}

abbrev provider : Provider
provider = record {
  with_query = λ url q. ok url;
  encode_form = λ q. codes "f";
  post_form = λ url form. ok (200, ok form);
  decode_tokens = λ raw. ok tokens;
}

abbrev client_bff : Bff
client_bff = record bff { oidc = oidc_client provider configured }

abbrev client_logged_in : Answer × Store
client_logged_in =
    callback library store_redis length_codec client_bff 5 (ok (codes "s1")) callback_request
      with_pending

client_logged_in_lem :
    client_logged_in ≡ (redirect (some cookie) (codes "/home"), client_logged_in.1)
unfolding logins_compute length_codec exchange_code token_response read_tokens tokens_of
    exchange_values ready
client_logged_in_lem = refl

callback_over_client_example :
    (t : Tokens) × (id : Identity) × (s1 : Store) × (sid : Text) × (raw : Text) × (ready configured
      ≡ true)
    × (provider.post_form
          (codes "t")
          (provider.encode_form (exchange_values configured (codes "c")))
        ≡ ok (200, ok raw))
    × (provider.decode_tokens (take response_limit raw) ≡ ok t)
    × (is_nil t.access_token ≡ false)
    × (verify library dev_verifier 5 t.access_token ≡ ok id)
    × (Session.create store_redis length_codec sessions 5
          (ok (codes "s1"))
          (login_data library store_redis length_codec bff t.access_token t.refresh_token id
            (expires_at 5 t.expires_in))
          s1
        ≡ (ok sid, client_logged_in.1))
unfolding texts_compute
callback_over_client_example =
    callback_over_client library store_redis length_codec bff provider configured 5
      (ok (codes "s1")) callback_request with_pending cookie (codes "/home") client_logged_in.1
      client_logged_in_lem
