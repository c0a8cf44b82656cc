-- ===== src/Redis/Model.antt =====
-- A server that meets the interface: a map from keys to values, each with what is left of its time to live,
-- that always answers.
use ting_boundless.Base.{
  false, codes, ltb, is_none, not, ap, ℕ, arith, text_eq, text_eq_refl, Bool-cases, Option, Text,
  ◌==◌, ◌-◌, ◌+◌, ◌≤◌, ◌≡◌, if◌then◌else◌, refl, inl, inr, true, some, none,
}
use ting_boundless.Base.Results.{failure, Result, err, ok}
use ting_boundless.Redis.{is_present, Redis, millisecond}

-- `none` as what is left is a key without a time to live.
abbrev pub Store : Type 0
Store = Text → Option (Text × Option ℕ)

abbrev pub value_of : Option (Text × Option ℕ) → Option Text
value_of none = none
value_of (some (v, left)) = some v

abbrev pub get_value : Option Text → Result Text
get_value none = err (failure (codes "redis: nil"))
get_value (some v) = ok v

abbrev pub count_value : Option Text → Result ℕ
count_value none = ok 0
count_value (some v) = ok 1

abbrev pub time_left : ℕ → Option ℕ
time_left ttl = if ttl == 0 then none else some ttl

abbrev pub put : Store → Text → Option (Text × Option ℕ) → Store
put s k v j = if text_eq k j then v else s j

abbrev pub aged : ℕ → Option (Text × Option ℕ) → Option (Text × Option ℕ)
aged n none = none
aged n (some (v, none)) = some (v, none)
aged n (some (v, some left)) = if ltb n left then some (v, some (left - n)) else none

pub get_value-ok : (o : Option Text) (v : Text) → get_value o ≡ ok v → o ≡ some v
get_value-ok o v h = ground arith

pub count_value-ok : (o : Option Text) (n : ℕ) → count_value o ≡ ok n → ltb 0 n ≡ is_present o
count_value-ok o n h = ground arith

pub count_value-total : (o : Option Text) → (n : ℕ) × (count_value o ≡ ok n)
count_value-total none = (0, refl)
count_value-total (some v) = (1, refl)

pub value_of-put :
    (s : Store) (k j : Text) (o : Option (Text × Option ℕ))
    → value_of (put s k o j) ≡ (if text_eq k j then value_of o else value_of (s j))
value_of-put s k j o = elim (Bool-cases (text_eq k j)) [ inl b ↦ rw b refl | inr b ↦ rw b refl ]

pub value_of-aged :
    (n : ℕ) (o : Option (Text × Option ℕ))
    → is_none (aged n o) ≡ false
    → value_of (aged n o) ≡ value_of o
value_of-aged n none h = refl
value_of-aged n (some (v, none)) h = refl
value_of-aged n (some (v, some left)) h = elim (Bool-cases (ltb n left)) [
  | inl b ↦ rw b refl
  | inr b ↦ absurd (ground (arith, b, h))
]

pub aged-put :
    (s : Store) (k v : Text) (ttl n : ℕ)
    → n + millisecond ≤ ttl
    → is_none (aged n (put s k (some (v, time_left ttl)) k)) ≡ false
aged-put s k v ttl n h = rw (text_eq_refl k) (ground (arith, h))

abbrev pub store_redis : Redis
store_redis = record {
  State = Store;
  contents = λ s k. value_of (s k);
  reachable = λ s. true;
  get = λ k s. get_value (value_of (s k));
  exists = λ k s. count_value (value_of (s k));
  set = λ k v ttl s. (ok tt, put s k (some (v, time_left ttl)));
  del = λ k s. (ok tt, put s k none);
  elapse = λ n s k. aged n (s k);
  lasts = λ n s k. not (is_none (aged n (s k)));
  get-ok = λ k v s h. get_value-ok (value_of (s k)) v h;
  get-reachable = λ k v s r h. ap get_value h;
  exists-ok = λ k n s h. count_value-ok (value_of (s k)) n h;
  exists-reachable = λ k s r. count_value-total (value_of (s k));
  set-ok = λ k v j ttl s h. value_of-put s k j (some (v, time_left ttl));
  elapse-lasts = λ n k s h. value_of-aged n (s k) (ground (arith, h));
  set-lasts = λ k v ttl n s h l. ap not (aged-put s k v ttl n l);
  del-ok = λ k j s h. value_of-put s k j none;
}
