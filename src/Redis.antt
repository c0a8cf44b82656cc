-- ===== src/Redis.antt =====
-- Redis as the code uses it, behind its documented behaviour: the server is no part of this
-- repository, so its state and commands are fields of a record. `contents` gives the live value of
-- each key. A key that was set with a time to live is gone after it, so a value is known to be
-- there only as long as that. A command may always fail, and a failed write may or may not have taken effect, so the
-- laws speak of commands that report no error.
pub mod Model
use ting_boundless.Base.{
  ◌≤◌, ◌+◌, ◌≡◌, Option, some, none, Text, text_eq, ℕ, Bool, true, false, ltb, if◌then◌else◌,
}
use ting_boundless.Base.Results.{Result, ok, err}

abbrev pub is_present : Option Text → Bool
is_present none = false
is_present (some _) = true

abbrev pub millisecond : ℕ
millisecond = 1_000_000

pub record Redis : Type 1 where
  pub State : Type 0
  pub contents : State → Text → Option Text
  -- Whether the server answers at the moment.
  pub reachable : State → Bool
  -- GET: a missing key is an error (redis.Nil).
  pub get : Text → State → Result Text
  -- EXISTS: the number of the given keys that exist.
  pub exists : Text → State → Result ℕ
  -- SET with a time to live in nanoseconds, where 0 keeps the key for good.
  pub set : Text → Text → ℕ → State → Result (Unit {0}) × State
  pub del : Text → State → Result (Unit {0}) × State
  -- The state after so many nanoseconds in which no command is sent.
  pub elapse : ℕ → State → State
  -- Whether a key that is held stays so for so many nanoseconds in which no command is sent.
  pub lasts : ℕ → State → Text → Bool
  pub get-ok : (k v : Text) (s : State) → get k s ≡ ok v → contents s k ≡ some v
  pub get-reachable :
      (k v : Text) (s : State) → reachable s ≡ true → contents s k ≡ some v → get k s ≡ ok v
  pub exists-ok :
      (k : Text) (n : ℕ) (s : State) → exists k s ≡ ok n → ltb 0 n ≡ is_present (contents s k)
  pub exists-reachable : (k : Text) (s : State) → reachable s ≡ true → (n : ℕ) × (exists k s ≡ ok n)
  pub set-ok :
      (k v j : Text) (ttl : ℕ) (s : State)
      → (set k v ttl s).0 ≡ ok tt
      → contents (set k v ttl s).1 j ≡ (if text_eq k j then some v else contents s j)
  pub elapse-lasts :
      (n : ℕ) (k : Text) (s : State) → lasts n s k ≡ true → contents (elapse n s) k ≡ contents s k
  -- The client sends a time to live in whole milliseconds, cut down.
  pub set-lasts :
      (k v : Text) (ttl n : ℕ) (s : State)
      → (set k v ttl s).0 ≡ ok tt
      → n + millisecond ≤ ttl
      → lasts n (set k v ttl s).1 k ≡ true
  pub del-ok :
      (k j : Text) (s : State)
      → (del k s).0 ≡ ok tt
      → contents (del k s).1 j ≡ (if text_eq k j then none else contents s j)
