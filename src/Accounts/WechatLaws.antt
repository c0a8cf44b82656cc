-- ===== src/Accounts/WechatLaws.antt =====
-- What `ResolveWeChatUser` promises, whatever other processes write meanwhile.
use ting_boundless.Accounts.Outcomes.{
  link_identity-Grows, link_identity-Outcome, lookup_user_id-Outcome, Outcome, Outcome-later,
  Outcome-ok, Outcome-err, if-Outcome,
}
use ting_boundless.Base.{codes, not, is_nil, ℕ, List, Text, ◌⊎◌, ◌≡◌, refl, inr, inl}
use ting_boundless.Base.Results.{failure, is_no_rows, Err, Result, err, ok}
use ting_boundless.Accounts.{
  link_identity, is_unique_violation, with_user, create_user_with_provider, lookup_user_id, Store,
  Tables,
}
use ting_boundless.Accounts.Wechat.{
  wechat_union, wechat_mp, create_wechat_user, resolve_wechat_user, by_openid, by_unionid,
  by_creation, raced, raced_openid, raced_union, then_union, with_union,
}
use ting_boundless.Accounts.Growth.{Grows-Maps, Grows-trans, here, HasUser, Maps}
use ting_boundless.Accounts.Validity.{Maps-HasUser, Grows-IsValid, IsValid}
use ting_boundless.Accounts.Laws.{create_user_with_provider-Outcome}

-- The user is the one of the openid, or that of the union id.
abbrev pub MapsEither : Text → Text → Text → Tables → Type 0
MapsEither openid unionid x t = Maps wechat_mp openid x t ⊎ Maps wechat_union unionid x t

module _ (openid unionid : Text) where
  by_first :
      {t : Tables} (r : Result Text × Store)
      → Outcome (Maps wechat_mp openid) t r
      → Outcome (MapsEither openid unionid) t r
  by_first r (g, h) = (g, λ x e. inl (h x e))

  by_second :
      {t : Tables} (r : Result Text × Store)
      → Outcome (Maps wechat_union unionid) t r
      → Outcome (MapsEither openid unionid) t r
  by_second r (g, h) = (g, λ x e. inr (h x e))

  with_union-Outcome :
      (x : Text) (s : Store)
      → IsValid s.tables
      → Maps wechat_mp openid x s.tables
      → Outcome (Maps wechat_mp openid) s.tables (with_union unionid x s)
  unfolding with_union
  with_union-Outcome x s v m =
      if-Outcome (Maps wechat_mp openid) (is_nil unionid) _ _
        (λ _. Outcome-ok (Maps wechat_mp openid) x s here m)
        λ _. link_identity-Outcome wechat_union unionid x s v wechat_mp openid m

  then_union-Outcome :
      {t : Tables} (r : Result Text × Store)
      → IsValid t
      → Outcome (Maps wechat_mp openid) t r
      → Outcome (Maps wechat_mp openid) t (then_union unionid r)
  unfolding then_union
  then_union-Outcome (ok x, s) v (g, h) =
      Outcome-later (Maps wechat_mp openid) (with_union unionid x s) g
        (with_union-Outcome x s (Grows-IsValid g v) (h x refl))
  then_union-Outcome (err e, s) v (g, h) = Outcome-err (Maps wechat_mp openid) e s g

  raced_union-Outcome :
      {t : Tables} (first : Err) (r : Result Text × Store)
      → IsValid t
      → Outcome (Maps wechat_union unionid) t r
      → Outcome (Maps wechat_union unionid) t (raced_union openid first r)
  unfolding raced_union
  raced_union-Outcome first (err e, s) v (g, h) = Outcome-err (Maps wechat_union unionid) first s g
  raced_union-Outcome first (ok x, s) v (g, h) =
      let o =
        link_identity-Grows wechat_mp openid x s (Grows-IsValid g v) wechat_union unionid
          (h x refl) in
      Outcome-ok (Maps wechat_union unionid) x (link_identity wechat_mp openid x s).1
        (Grows-trans g o) (Grows-Maps wechat_union unionid o (h x refl))

  raced_openid-Outcome :
      {t : Tables} (first : Err) (r : Result Text × Store)
      → IsValid t
      → Outcome (Maps wechat_mp openid) t r
      → Outcome (MapsEither openid unionid) t (raced_openid openid unionid first r)
  unfolding raced_openid
  raced_openid-Outcome first (ok x, s) v h = by_first (ok x, s) h
  raced_openid-Outcome first (err e, s) v (g, h) =
      let again = lookup_user_id wechat_union unionid s in
      if-Outcome (MapsEither openid unionid) (is_nil unionid) _ _
        (λ _. Outcome-err (MapsEither openid unionid) first s g)
        λ _. by_second (raced_union openid first again) (
          raced_union-Outcome first again v (
            Outcome-later (Maps wechat_union unionid) again g
              (lookup_user_id-Outcome wechat_union unionid s)))

  raced-Outcome :
      {t : Tables} (r : Result Text × Store)
      → IsValid t
      → Outcome (Maps wechat_mp openid) t r
      → Outcome (MapsEither openid unionid) t (raced openid unionid r)
  unfolding raced
  raced-Outcome (ok x, s) v h = by_first (ok x, s) h
  raced-Outcome (err e, s) v (g, h) =
      let again = lookup_user_id wechat_mp openid s in
      if-Outcome (MapsEither openid unionid) (is_unique_violation e) _ _
        (λ _. raced_openid-Outcome e again v (
          Outcome-later (Maps wechat_mp openid) again g
            (lookup_user_id-Outcome wechat_mp openid s)))
        λ _. Outcome-err (MapsEither openid unionid) e s g

  by_creation-Outcome :
      (random : Result (List ℕ)) (s : Store)
      → IsValid s.tables
      → Outcome (MapsEither openid unionid) s.tables (by_creation random openid unionid s)
  unfolding by_creation create_wechat_user
  by_creation-Outcome random s v =
      let made = create_user_with_provider random wechat_mp openid s in
      raced-Outcome (then_union unionid made) v
        (then_union-Outcome made v (create_user_with_provider-Outcome wechat_mp openid random s))

  by_unionid-Outcome :
      {t : Tables} (random : Result (List ℕ)) (r : Result Text × Store)
      → IsValid t
      → Outcome (Maps wechat_union unionid) t r
      → Outcome (MapsEither openid unionid) t (by_unionid random openid unionid r)
  unfolding by_unionid
  by_unionid-Outcome random (ok x, s) v (g, h) =
      let out = with_user x (link_identity wechat_mp openid x s) in
      Outcome-later (MapsEither openid unionid) out g (
        by_second out (
          link_identity-Outcome wechat_mp openid x s (Grows-IsValid g v) wechat_union unionid
            (h x refl)))
  by_unionid-Outcome random (err e, s) v (g, h) =
      let out = by_creation random openid unionid s in
      if-Outcome (MapsEither openid unionid) (is_no_rows e) _ _
        (λ _.
          Outcome-later (MapsEither openid unionid) out g
            (by_creation-Outcome random s (Grows-IsValid g v)))
        λ _. Outcome-err (MapsEither openid unionid) e s g

  by_openid-Outcome :
      {t : Tables} (random : Result (List ℕ)) (r : Result Text × Store)
      → IsValid t
      → Outcome (Maps wechat_mp openid) t r
      → Outcome (MapsEither openid unionid) t (by_openid random openid unionid r)
  unfolding by_openid
  by_openid-Outcome random (ok x, s) v (g, h) =
      let out = with_union unionid x s in
      Outcome-later (MapsEither openid unionid) out g
        (by_first out (with_union-Outcome x s (Grows-IsValid g v) (h x refl)))
  by_openid-Outcome random (err e, s) v (g, h) =
      let w = Grows-IsValid g v in
      let made = by_creation random openid unionid s in
      let again = lookup_user_id wechat_union unionid s in
      if-Outcome (MapsEither openid unionid) (not (is_no_rows e)) _ _
        (λ _. Outcome-err (MapsEither openid unionid) e s g)
        λ _.
          if-Outcome (MapsEither openid unionid) (is_nil unionid) _ _
            (λ _. Outcome-later (MapsEither openid unionid) made g (by_creation-Outcome random s w))
            λ _.
              Outcome-later (MapsEither openid unionid) (by_unionid random openid unionid again) g
                (by_unionid-Outcome random again w (lookup_user_id-Outcome wechat_union unionid s))

  resolve_wechat_user-Outcome :
      (random : Result (List ℕ)) (s : Store)
      → IsValid s.tables
      → Outcome (MapsEither openid unionid) s.tables (resolve_wechat_user random openid unionid s)
  unfolding resolve_wechat_user
  resolve_wechat_user-Outcome random s v =
      if-Outcome (MapsEither openid unionid) (not s.connected) _ _
        (λ _.
          Outcome-err (MapsEither openid unionid) (failure (codes "identity store not configured"))
            s here)
        λ _.
          if-Outcome (MapsEither openid unionid) (is_nil openid) _ _
            (λ _.
              Outcome-err (MapsEither openid unionid) (failure (codes "openid required")) s here)
            λ _.
              by_openid-Outcome random (lookup_user_id wechat_mp openid s) v
                (lookup_user_id-Outcome wechat_mp openid s)

-- On valid tables, whatever other processes write meanwhile and whichever statements fail:
-- `ResolveWeChatUser` leaves valid tables, and a user that it returns exists and is the one that the
-- openid or the union id is mapped to.
pub resolve_wechat_user-MapsEither :
    (random : Result (List ℕ)) (openid unionid : Text) (s : Store)
    → IsValid s.tables
    → let out = resolve_wechat_user random openid unionid s in
      IsValid out.1.tables
      × ((x : Text)
          → out.0 ≡ ok x
          → MapsEither openid unionid x out.1.tables × HasUser x out.1.tables)
resolve_wechat_user-MapsEither random openid unionid s v = (w, λ x h. (o.1 x h, owner x (o.1 x h)))
  where
    o : Outcome (MapsEither openid unionid) s.tables (resolve_wechat_user random openid unionid s)
    o = resolve_wechat_user-Outcome openid unionid random s v

    t : Tables
    t = (resolve_wechat_user random openid unionid s).1.tables

    w : IsValid t
    w = Grows-IsValid o.0 v

    owner : (x : Text) → MapsEither openid unionid x t → HasUser x t
    owner x (inl m) = Maps-HasUser wechat_mp openid t w m
    owner x (inr m) = Maps-HasUser wechat_union unionid t w m
