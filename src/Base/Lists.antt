-- ===== src/Base/Lists.antt =====
-- Lists measured by native numbers, tests over their items, and predicates on all items.
use Prim.Native.Nat.{ℕ, zero, suc, ◌+◌, ◌≤◌}
use mathlib.Core.Path.{◌≡◌, refl, ap, sym, subst, ◌∙◌}
use mathlib.Core.Logic.{◌⊎◌, inl, inr, ◌↔◌}
use mathlib.Core.Bool.{Bool, true, false, ◌||◌}
use mathlib.Core.List.{List, [], ◌∷◌, ◌++◌, Memᴰ}
use native.Mathlib.Omega.{arith}
use ting_boundless.Base.Tests.{if◌then◌else◌, Bool-cases}

module _ {ℓ} {A : Type ℓ} where
  abbrev pub length : List A → ℕ
  length [] = 0
  length (x ∷ xs) = suc (length xs)

  abbrev pub take : ℕ → List A → List A
  take zero xs = []
  take (suc n) [] = []
  take (suc n) (x ∷ xs) = x ∷ take n xs

  abbrev pub drop : ℕ → List A → List A
  drop zero xs = xs
  drop (suc n) [] = []
  drop (suc n) (x ∷ xs) = drop n xs

  pub length-append : (xs ys : List A) → length (xs ++ ys) ≡ length xs + length ys
  length-append [] ys = omega arith
  length-append (x ∷ xs) ys = omega (arith, length-append xs ys)

  pub append_assoc : (xs ys zs : List A) → (xs ++ ys) ++ zs ≡ xs ++ (ys ++ zs)
  append_assoc [] ys zs = refl
  append_assoc (x ∷ xs) ys zs = ap (λ u. x ∷ u) (append_assoc xs ys zs)

  abbrev pub is_nil : List A → Bool
  is_nil [] = true
  is_nil (_ ∷ _) = false

  -- Whether some item passes the test: a loop that returns true at the first one.
  unfoldable pub any : (A → Bool) → List A → Bool
  any p [] = false
  any p (x ∷ xs) = p x || any p xs

  -- The items that pass the test, in order: a loop that appends them to a new slice.
  unfoldable pub keep : (A → Bool) → List A → List A
  keep p [] = []
  keep p (x ∷ xs) = let rest = keep p xs in if p x then x ∷ rest else rest

  pub any-append : (p : A → Bool) (xs ys : List A) → any p (xs ++ ys) ≡ (any p xs || any p ys)
  unfolding any
  any-append p [] ys = refl
  any-append p (x ∷ xs) ys = ground (arith, any-append p xs ys)

  pub any_of_mem : (p : A → Bool) (xs : List A) {x : A} → Memᴰ x xs → p x ≡ true → any p xs ≡ true
  unfolding any
  any_of_mem p [] m h = elim m [ ]
  any_of_mem p (x ∷ xs) (Memᴰ.head e) h = ground (arith, ap p e)
  any_of_mem p (x ∷ xs) (Memᴰ.tail m) h = ground (arith, any_of_mem p xs m h)

  pub mem_of_any :
      (p : A → Bool) (xs : List A) → any p xs ≡ true → (x : A) × Memᴰ x xs × (p x ≡ true)
  unfolding any
  mem_of_any p [] h = absurd (ground arith)
  mem_of_any p (x ∷ xs) h = elim (Bool-cases (p x)) [
    | inl e ↦ (x, Memᴰ.head refl, e)
    | inr e ↦ let (y, m, k) = mem_of_any p xs (ground arith) in (y, Memᴰ.tail m, k)
  ]

  kept :
      (p : A → Bool) (y : A) (ys : List A)
      → p y ≡ true
      → (zs : List A) {x : A} → Memᴰ x zs ↔ (Memᴰ x ys × (p x ≡ true))
      → Memᴰ x (y ∷ zs) ↔ (Memᴰ x (y ∷ ys) × (p x ≡ true))
  kept p y ys e zs {x} h = (to, from)
    where
      to : Memᴰ x (y ∷ zs) → Memᴰ x (y ∷ ys) × (p x ≡ true)
      to (Memᴰ.head q) = (Memᴰ.head q, ap p q ∙ e)
      to (Memᴰ.tail m) = (Memᴰ.tail (h.0 m).0, (h.0 m).1)

      from : Memᴰ x (y ∷ ys) × (p x ≡ true) → Memᴰ x (y ∷ zs)
      from (Memᴰ.head q, k) = Memᴰ.head q
      from (Memᴰ.tail m, k) = Memᴰ.tail (h.1 (m, k))

  dropped :
      (p : A → Bool) (y : A) (ys : List A)
      → p y ≡ false
      → (zs : List A) {x : A} → Memᴰ x zs ↔ (Memᴰ x ys × (p x ≡ true))
      → Memᴰ x zs ↔ (Memᴰ x (y ∷ ys) × (p x ≡ true))
  dropped p y ys e zs {x} h = (λ m. (Memᴰ.tail (h.0 m).0, (h.0 m).1), from)
    where
      from : Memᴰ x (y ∷ ys) × (p x ≡ true) → Memᴰ x zs
      from (Memᴰ.head q, k) = absurd (ground (arith, ap p q))
      from (Memᴰ.tail m, k) = h.1 (m, k)

  -- The items kept are those of the list that pass the test.
  pub mem-keep :
      (p : A → Bool) {x : A} (xs : List A) → Memᴰ x (keep p xs) ↔ (Memᴰ x xs × (p x ≡ true))
  unfolding keep
  mem-keep p [] = (λ m. elim m [ ], λ m. elim m.0 [ ])
  mem-keep p (y ∷ ys) = elim (Bool-cases (p y)) [
    | inl e ↦ rw e (kept p y ys e (keep p ys) (mem-keep p ys))
    | inr e ↦ rw e (dropped p y ys e (keep p ys) (mem-keep p ys))
  ]

  unfoldable pub reversed : List A → List A
  reversed [] = []
  reversed (x ∷ xs) = reversed xs ++ x ∷ []

  pub mem_of_append : {x : A} (xs ys : List A) → Memᴰ x (xs ++ ys) → Memᴰ x xs ⊎ Memᴰ x ys
  mem_of_append [] ys m = inr m
  mem_of_append (y ∷ xs) ys (Memᴰ.head e) = inl (Memᴰ.head e)
  mem_of_append (y ∷ xs) ys (Memᴰ.tail m) = elim (mem_of_append xs ys m) [
    | inl n ↦ inl (Memᴰ.tail n)
    | inr n ↦ inr n
  ]

  pub mem-append_left : {x : A} (xs ys : List A) → Memᴰ x xs → Memᴰ x (xs ++ ys)
  mem-append_left [] ys m = elim m [ ]
  mem-append_left (y ∷ xs) ys (Memᴰ.head e) = Memᴰ.head e
  mem-append_left (y ∷ xs) ys (Memᴰ.tail m) = Memᴰ.tail (mem-append_left xs ys m)

  pub mem-append_right : {x : A} (xs ys : List A) → Memᴰ x ys → Memᴰ x (xs ++ ys)
  mem-append_right [] ys m = m
  mem-append_right (y ∷ xs) ys m = Memᴰ.tail (mem-append_right xs ys m)

  -- An item put last is one put first.
  mem_last :
      {x : A} (y : A) (zs ys : List A)
      → Memᴰ x zs ↔ Memᴰ x ys
      → Memᴰ x (zs ++ y ∷ []) ↔ Memᴰ x (y ∷ ys)
  mem_last {x} y zs ys h = (to, from)
    where
      head_of : Memᴰ x (y ∷ []) → Memᴰ x (y ∷ ys)
      head_of (Memᴰ.head e) = Memᴰ.head e
      head_of (Memᴰ.tail m) = elim m [ ]

      to : Memᴰ x (zs ++ y ∷ []) → Memᴰ x (y ∷ ys)
      to m = elim (mem_of_append zs (y ∷ []) m) [ inl n ↦ Memᴰ.tail (h.0 n) | inr n ↦ head_of n ]

      from : Memᴰ x (y ∷ ys) → Memᴰ x (zs ++ y ∷ [])
      from (Memᴰ.head e) = mem-append_right zs (y ∷ []) (Memᴰ.head e)
      from (Memᴰ.tail m) = mem-append_left zs (y ∷ []) (h.1 m)

  pub mem-reversed : {x : A} (xs : List A) → Memᴰ x (reversed xs) ↔ Memᴰ x xs
  unfolding reversed
  mem-reversed [] = (λ m. m, λ m. m)
  mem-reversed (y ∷ ys) = mem_last y (reversed ys) ys (mem-reversed ys)

  pub length-reversed : (xs : List A) → length (reversed xs) ≡ length xs
  unfolding reversed
  length-reversed [] = refl
  length-reversed (x ∷ xs) = omega (arith, length-append (reversed xs) (x ∷ []), length-reversed xs)

  pub mem_of_take : {x : A} (n : ℕ) (xs : List A) → Memᴰ x (take n xs) → Memᴰ x xs
  mem_of_take zero xs m = elim m [ ]
  mem_of_take (suc n) [] m = elim m [ ]
  mem_of_take (suc n) (y ∷ ys) (Memᴰ.head e) = Memᴰ.head e
  mem_of_take (suc n) (y ∷ ys) (Memᴰ.tail m) = Memᴰ.tail (mem_of_take n ys m)

  pub length-take_le : (n : ℕ) (xs : List A) → length (take n xs) ≤ n
  length-take_le zero xs = omega arith
  length-take_le (suc n) [] = omega arith
  length-take_le (suc n) (y ∷ ys) = omega (arith, length-take_le n ys)

  pub is_nil-append_one : (xs : List A) (x : A) → is_nil (xs ++ x ∷ []) ≡ false
  is_nil-append_one [] x = refl
  is_nil-append_one (y ∷ xs) x = refl

module _ {ℓ κ} {A : Type ℓ} (P : A → Type κ) where
  abbrev pub All : List A → Type κ
  All [] = Unit
  All (x ∷ xs) = P x × All xs

  pub All-append : (xs ys : List A) → All xs → All ys → All (xs ++ ys)
  All-append [] ys h k = k
  All-append (x ∷ xs) ys (p, h) k = (p, All-append xs ys h k)

  pub All-mem : (xs : List A) {x : A} → All xs → Memᴰ x xs → P x
  All-mem [] h m = elim m [ ]
  All-mem (y ∷ xs) (h, hs) (Memᴰ.head e) = subst P (sym e) h
  All-mem (y ∷ xs) (h, hs) (Memᴰ.tail m) = All-mem xs hs m
