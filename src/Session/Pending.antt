-- ===== src/Session/Pending.antt =====
-- The state of a login is good for one callback.
use ting_boundless.Base.{text_eq_refl, arith, ◌∙◌, ◌*◌, refl, inr, inl, some, none, Text, ◌≡◌, true}
use ting_boundless.Base.Results.{Result-cases, Err, err, is_err, ok}
use ting_boundless.Redis.{Redis}
use ting_boundless.Session.{pending_key, PendingLogin, consume_pending, save_pending, Store, Codec}

module _ (redis : Redis) (codec : Codec) (store : Store) where
  open redis use {State, contents, reachable, set-ok, del, del-ok, get-ok, get-reachable}

  contents-save_pending :
      (state : Text) (p : PendingLogin) (s : State)
      → (save_pending redis codec store state p s).0 ≡ ok tt
      → (store.connected ≡ true)
        × (contents (save_pending redis codec store state p s).1 (pending_key redis codec state)
            ≡ some (codec.encode_pending p))
  unfolding save_pending
  contents-save_pending state p s h = ground (
    arith,
    set-ok (pending_key redis codec state) (codec.encode_pending p) (pending_key redis codec state)
        (600 * 1_000_000_000) s,
    text_eq_refl (pending_key redis codec state),
  )

  consume_held :
      (state : Text) (p : PendingLogin) (s : State)
      → store.connected ≡ true
      → reachable s ≡ true
      → contents s (pending_key redis codec state) ≡ some (codec.encode_pending p)
      → (consume_pending redis codec store state s).0 ≡ ok p
  unfolding consume_pending
  consume_held state p s c r h = ground (
    arith,
    get-reachable (pending_key redis codec state) (codec.encode_pending p) s r h,
    codec.decode_pending-encode_pending p,
  )

  -- A pending login that was saved without error is what the callback gets back, on a server that
  -- answers.
  pub consume-save :
      (state : Text) (p : PendingLogin) (s : State)
      → (save_pending redis codec store state p s).0 ≡ ok tt
      → reachable (save_pending redis codec store state p s).1 ≡ true
      → (consume_pending redis codec store state (save_pending redis codec store state p s).1).0
        ≡ ok p
  consume-save state p s h r =
      let (connected, held) = contents-save_pending state p s h in
      consume_held state p (save_pending redis codec store state p s).1 connected r held

  get_absent :
      (key : Text) (s : State) → contents s key ≡ none → (e : Err) × (redis.get key s ≡ err e)
  get_absent key s h = elim (Result-cases (redis.get key s)) [
    | inl (v, e) ↦ absurd (ground (arith, get-ok key v s e))
    | inr (e, q) ↦ (e, q)
  ]

  -- After the key was deleted without error, a callback with that state fails.
  consume_deleted :
      (state : Text) (s : State)
      → (del (pending_key redis codec state) s).0 ≡ ok tt
      → is_err (consume_pending redis codec store state (del (pending_key redis codec state) s).1).0
        ≡ true
  unfolding consume_pending
  consume_deleted state s d =
      let key = pending_key redis codec state in
      let gone = get_absent key (del key s).1 (del-ok key key s d ∙ (rw (text_eq_refl key) refl)) in
      ground (arith, gone.1)

  consume_leaves_deleted :
      (state : Text) (p : PendingLogin) (s : State)
      → (consume_pending redis codec store state s).0 ≡ ok p
      → (consume_pending redis codec store state s).1 ≡ (del (pending_key redis codec state) s).1
  unfolding consume_pending
  consume_leaves_deleted state p s h = ground arith

  -- Once it was consumed and its key deleted without error, a second callback with that state fails.
  pub consume_once :
      (state : Text) (p : PendingLogin) (s : State)
      → (consume_pending redis codec store state s).0 ≡ ok p
      → (del (pending_key redis codec state) s).0 ≡ ok tt
      → is_err
          (consume_pending redis codec store state (consume_pending redis codec store state s).1).0
        ≡ true
  consume_once state p s h d = rw (consume_leaves_deleted state p s h) (consume_deleted state s d)
