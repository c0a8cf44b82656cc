-- ===== src/Session/Laws.antt =====
-- A created session is found until it expires, and an expired one is not served.
use ting_boundless.Base.{
  not, is_nil, if-both, ltb, Option, ◌∙◌, ◌≤◌, ◌+◌, refl, none, text_eq_refl, arith, codes, Text, ℕ,
  ◌++◌, ◌≢◌, ◌≡◌, false, true, some, [],
}
use ting_boundless.Base.Results.{failure, Result, ◌>>=◌, err, ok}
use ting_boundless.Redis.{Redis, millisecond}
use ting_boundless.Session.{
  unexpired, save_ttl, delete, is_expired, Data, create, get, Store, Codec,
}

module _ (redis : Redis) (codec : Codec) (store : Store) where
  open redis use {
    get as get_key, State, set, contents, reachable, set-ok, del-ok, get-reachable, elapse, lasts,
    elapse-lasts, set-lasts,
  }

  -- A session store that creates a session is connected, and Redis then holds the encoded session.
  pub contents-create :
      (now : ℕ) (id : Text) (d : Data) (s : State)
      → (create redis codec store now (ok id) d s).0 ≡ ok id
      → (store.connected ≡ true)
        × (contents (create redis codec store now (ok id) d s).1 (store.prefix ++ id)
            ≡ some (codec.encode d))
  unfolding create
  contents-create now id d s c = ground (
    arith,
    set-ok (store.prefix ++ id) (codec.encode d) (store.prefix ++ id)
        (save_ttl store now d.expires_at) s,
    text_eq_refl (store.prefix ++ id),
  )

  -- A live session that Redis holds is served.
  get_live :
      (now : ℕ) (id : Text) (d : Data) (s : State)
      → store.connected ≡ true
      → id ≢ []
      → reachable s ≡ true
      → contents s (store.prefix ++ id) ≡ some (codec.encode d)
      → is_expired now d ≡ false
      → get redis codec store now id s ≡ (ok d, s)
  unfolding get
  get_live now id d s c n r h x =
      ground
        (arith, get-reachable (store.prefix ++ id) (codec.encode d) s r h, codec.decode-encode d)

  -- The time is not after the expiry, if there is one.
  abbrev pub IsBefore : ℕ → Option ℕ → Type 0
  IsBefore t none = Unit {0}
  IsBefore t (some expiry) = t ≤ expiry

  save_ttl_bound :
      (now n : ℕ) (expiry : Option ℕ)
      → n + millisecond ≤ store.ttl
      → IsBefore (now + n + millisecond) expiry
      → n + millisecond ≤ save_ttl store now expiry
  unfolding save_ttl
  save_ttl_bound now n none h b = h
  save_ttl_bound now n (some e) h b = ground (arith, h, b)

  is_expired_before :
      (now n : ℕ) (d : Data)
      → IsBefore (now + n + millisecond) d.expires_at
      → is_expired (now + n) d ≡ false
  unfolding is_expired
  is_expired_before now n d b = by_expiry d.expires_at b
    where
      by_expiry :
          (expiry : Option ℕ)
          → IsBefore (now + n + millisecond) expiry
          → elim expiry [ none ↦ false | some e ↦ ltb e (now + n) ] ≡ false
      by_expiry none b = refl
      by_expiry (some e) b = ground (arith, b)

  -- What `Create` wrote is there as long as the store's time to live and the session's expiry allow.
  contents-elapsed :
      (now n : ℕ) (id : Text) (d : Data) (s : State)
      → (create redis codec store now (ok id) d s).0 ≡ ok id
      → n + millisecond ≤ store.ttl
      → IsBefore (now + n + millisecond) d.expires_at
      → contents (elapse n (create redis codec store now (ok id) d s).1) (store.prefix ++ id)
        ≡ some (codec.encode d)
  contents-elapsed now n id d s c l b =
      elapse-lasts n (store.prefix ++ id) (create redis codec store now (ok id) d s).1
        (created_lasts c)
      ∙ (contents-create now id d s c).1
    where
      saved_lasts :
          (set (store.prefix ++ id) (codec.encode d) (save_ttl store now d.expires_at) s).0 ≡ ok tt
          → lasts n
              (set (store.prefix ++ id) (codec.encode d) (save_ttl store now d.expires_at) s).1
              (store.prefix ++ id)
            ≡ true
      saved_lasts h =
          set-lasts (store.prefix ++ id) (codec.encode d) (save_ttl store now d.expires_at) n s h
            (save_ttl_bound now n d.expires_at l b)

      created_lasts :
          (create redis codec store now (ok id) d s).0 ≡ ok id
          → lasts n (create redis codec store now (ok id) d s).1 (store.prefix ++ id) ≡ true
      created_lasts c = unfold create in ground (arith, c, saved_lasts)

  -- A session that was created without error, under an id that is not empty, is served later, with the
  -- data it was created with: until a millisecond before the store's time to live has passed and before the
  -- session's expiry, if it has one, on a server that answers then and to which no command was sent in between.
  pub get-create :
      (now n : ℕ) (id : Text) (d : Data) (s : State)
      → id ≢ []
      → (create redis codec store now (ok id) d s).0 ≡ ok id
      → n + millisecond ≤ store.ttl
      → IsBefore (now + n + millisecond) d.expires_at
      → reachable (elapse n (create redis codec store now (ok id) d s).1) ≡ true
      → get redis codec store (now + n) id (elapse n (create redis codec store now (ok id) d s).1)
        ≡ (ok d, elapse n (create redis codec store now (ok id) d s).1)
  get-create now n id d s ne c l b r =
      get_live (now + n) id d (elapse n (create redis codec store now (ok id) d s).1)
        (contents-create now id d s c).0 ne r (contents-elapsed now n id d s c l b)
        (is_expired_before now n d b)

  -- An expired session that Redis holds under an id that is not empty is refused and deleted, where
  -- the store is connected and the server answers.
  pub get_expired :
      (now : ℕ) (id : Text) (d : Data) (s : State)
      → store.connected ≡ true
      → id ≢ []
      → reachable s ≡ true
      → contents s (store.prefix ++ id) ≡ some (codec.encode d)
      → is_expired now d ≡ true
      → get redis codec store now id s
        ≡ (err (failure (codes "session expired")), (delete redis codec store id s).1)
  unfolding get
  get_expired now id d s c n r h x =
      ground
        (arith, get-reachable (store.prefix ++ id) (codec.encode d) s r h, codec.decode-encode d)

  -- A session that is served leaves the state.
  pub get_state :
      (now : ℕ) (id : Text) (d : Data) (s : State)
      → (get redis codec store now id s).0 ≡ ok d
      → (get redis codec store now id s).1 ≡ s
  unfolding get
  get_state now id d s h =
      if-both (λ (o : Result Data × State). o.0 ≡ ok d → o.1 ≡ s) (not store.connected) _ _
        (λ _ k. refl)
        (λ _.
          if-both (λ (o : Result Data × State). o.0 ≡ ok d → o.1 ≡ s) (is_nil id) _ _ (λ _ k. refl)
            (λ _. of_read (get_key (store.prefix ++ id) s >>= codec.decode)))
        h
    where
      of_read :
          (r : Result Data)
          → (unexpired redis codec store now id s r).0 ≡ ok d
          → (unexpired redis codec store now id s r).1 ≡ s
      of_read (err e) k = refl
      of_read (ok d') k = ground (arith, k)
