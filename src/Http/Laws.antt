-- ===== src/Http/Laws.antt =====
-- Laws of the header operations.
use ting_boundless.Base.{◌≡◌, refl, ◌≢◌, Text, []}
use ting_boundless.Http.{HeaderName, Headers, get, set, del}
use mathlib.Core.Logic.{if_pos, if_neg}

pub get-set_self : (h : Headers) (k : HeaderName) (v : Text) → get (set h k v) k ≡ v
unfolding get set
get-set_self h k v = rw (if_pos _ refl)

pub get-set_ne : (h : Headers) (k j : HeaderName) (v : Text) → k ≢ j → get (set h k v) j ≡ get h j
unfolding get set
get-set_ne h k j v n = rw (if_neg _ n)

pub get-del_self : (h : Headers) (k : HeaderName) → get (del h k) k ≡ []
unfolding get del
get-del_self h k = rw (if_pos _ refl)

pub get-del_ne : (h : Headers) (k j : HeaderName) → k ≢ j → get (del h k) j ≡ get h j
unfolding get del
get-del_ne h k j n = rw (if_neg _ n)
