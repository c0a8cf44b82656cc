-- ===== src/Revocation/Laws.antt =====
-- A revoked subject or session is found, and nothing else is.
use ting_boundless.Base.{
  text_eq_iff, ◌⊎◌, text_eq_refl, arith, ap, text_eq-append, is_nil, text_eq, Text, codes, ◌∙◌,
  ◌++◌, ◌≡◌, if◌then◌else◌, refl, false, true, some,
}
use ting_boundless.Base.Results.{ok}
use ting_boundless.Redis.{is_present, Redis}
use ting_boundless.Revocation.{
  revoke_session, is_session_revoked, is_subject_revoked, revoke_subject, put, lookup, Store,
}

sub_ne_session :
    (p a b : Text) → text_eq (p ++ (codes "sub:" ++ a)) (p ++ (codes "session:" ++ b)) ≡ false
unfolding codes text_eq
sub_ne_session p a b = text_eq-append p (codes "sub:" ++ a) (codes "session:" ++ b)

sub_eq_sub :
    (p a b : Text) → text_eq (p ++ (codes "sub:" ++ a)) (p ++ (codes "sub:" ++ b)) ≡ text_eq a b
sub_eq_sub p a b =
    text_eq-append p (codes "sub:" ++ a) (codes "sub:" ++ b) ∙ text_eq-append (codes "sub:") a b

is_nil-codes :
    (a : Text) → (is_nil (codes "sub:" ++ a) ≡ false) × (is_nil (codes "session:" ++ a) ≡ false)
unfolding codes
is_nil-codes a = (refl, refl)

module _ (redis : Redis) (store : Store) (connected : store.connected ≡ true) where
  open redis use {State, contents, reachable, set-ok, exists-ok, exists-reachable}

  -- A lookup on a server that answers gives what the server holds.
  lookup_lem :
      (suffix : Text) (s : State)
      → is_nil suffix ≡ false
      → reachable s ≡ true
      → lookup redis store suffix s ≡ ok (is_present (contents s (store.prefix ++ suffix)))
  unfolding lookup
  lookup_lem suffix s n r =
      let (k, e) = exists-reachable (store.prefix ++ suffix) s r in
      rw (connected, n, e) (ap ok (exists-ok (store.prefix ++ suffix) k s e))

  contents-put :
      (suffix k : Text) (s : State)
      → is_nil suffix ≡ false
      → (put redis store suffix s).0 ≡ ok tt
      → contents (put redis store suffix s).1 k
        ≡ (if text_eq (store.prefix ++ suffix) k then some (codes "1") else contents s k)
  unfolding put
  contents-put suffix k s n e = ground (
    arith,
    set-ok (store.prefix ++ suffix) (codes "1") k store.ttl s,
    set-ok (store.prefix ++ suffix) (codes "1") k 0 s,
  )

  -- After a revocation of a subject that reported no error, on a connected server that answers before
  -- and after: exactly that subject is revoked besides those that were, and the sessions that are
  -- revoked are those that were.
  pub revoke_subject_exact :
      (a b c : Text) (s : State)
      → (revoke_subject redis store a s).0 ≡ ok tt
      → reachable s ≡ true
      → reachable (revoke_subject redis store a s).1 ≡ true
      → (is_subject_revoked redis store b (revoke_subject redis store a s).1
          ≡ (if text_eq a b then ok true else is_subject_revoked redis store b s))
        × (is_session_revoked redis store c (revoke_subject redis store a s).1
            ≡ is_session_revoked redis store c s)
  unfolding revoke_subject is_subject_revoked is_session_revoked
  revoke_subject_exact a b c s e r r' = (
    ground (
      arith,
      lookup_lem (codes "sub:" ++ b) s (is_nil-codes b).0 r,
      lookup_lem (codes "sub:" ++ b) _ (is_nil-codes b).0 r',
      contents-put (codes "sub:" ++ a) (store.prefix ++ (codes "sub:" ++ b)) s (is_nil-codes a).0 e,
      sub_eq_sub store.prefix a b,
    ),
    ground (
      arith,
      lookup_lem (codes "session:" ++ c) s (is_nil-codes c).1 r,
      lookup_lem (codes "session:" ++ c) _ (is_nil-codes c).1 r',
      contents-put (codes "sub:" ++ a) (store.prefix ++ (codes "session:" ++ c)) s
          (is_nil-codes a).0 e,
      sub_ne_session store.prefix a c,
    ),
  )

  session_eq_session :
      (p a b : Text)
      → text_eq (p ++ (codes "session:" ++ a)) (p ++ (codes "session:" ++ b)) ≡ text_eq a b
  session_eq_session p a b =
      text_eq-append p (codes "session:" ++ a) (codes "session:" ++ b)
      ∙ text_eq-append (codes "session:") a b

  -- After a revocation of a session that reported no error, that session is revoked.
  pub is_session_revoked-revoke_session :
      (a : Text) (s : State)
      → (revoke_session redis store a s).0 ≡ ok tt
      → reachable (revoke_session redis store a s).1 ≡ true
      → is_session_revoked redis store a (revoke_session redis store a s).1 ≡ ok true
  unfolding revoke_session is_session_revoked
  is_session_revoked-revoke_session a s e r = ground (
    arith,
    lookup_lem (codes "session:" ++ a) _ (is_nil-codes a).1 r,
    contents-put (codes "session:" ++ a) (store.prefix ++ (codes "session:" ++ a)) s
        (is_nil-codes a).1 e,
    session_eq_session store.prefix a a,
    text_eq_refl a,
  )

  -- The server holds the mark of a revoked subject.
  abbrev pub IsHeld : Text → State → Type 0
  IsHeld a s = contents s (store.prefix ++ (codes "sub:" ++ a)) ≡ some (codes "1")

  pub is_subject_revoked-IsHeld :
      (a : Text) (s : State)
      → reachable s ≡ true
      → IsHeld a s
      → is_subject_revoked redis store a s ≡ ok true
  unfolding is_subject_revoked
  is_subject_revoked-IsHeld a s r h =
      lookup_lem (codes "sub:" ++ a) s (is_nil-codes a).0 r ∙ ap (λ o. ok (is_present o)) h

  -- A revocation marks its subject, and takes no mark away.
  pub revoke_subject-IsHeld :
      (a b : Text) (s : State)
      → (revoke_subject redis store a s).0 ≡ ok tt
      → (a ≡ b) ⊎ IsHeld b s
      → IsHeld b (revoke_subject redis store a s).1
  unfolding revoke_subject
  revoke_subject-IsHeld a b s e h = ground (
    arith,
    contents-put (codes "sub:" ++ a) (store.prefix ++ (codes "sub:" ++ b)) s (is_nil-codes a).0 e,
    sub_eq_sub store.prefix a b,
    text_eq_iff a b,
    h,
  )
