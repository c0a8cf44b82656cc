-- ===== src/Httpx/Paths/Laws.antt =====
-- That the access log holds no ids.
use ting_boundless.Base.{
  has_prefix, split-Lacks, split_not_nil, eq_of_text_eq, sym, text_eq, subst, split_by, ◌||◌, true,
  Bool-cases, split-join, arith, join, if-both, split, is_nil, map, All, Lacks, codes, Text, List,
  ◌∷◌, ◌≡◌, refl, inr, inl, false, [],
}
use ting_boundless.Httpx.Paths.{
  is_digit, is_id_char, is_hex_char, all_of, after_run, after_dash, then_hex, starts_uuid,
  num_segment, id_segment, uuid_segment, names_one, normalize_path, normalize_part,
}

not_one : (s : Text) → names_one (normalize_part s) ≡ false
unfolding normalize_part
not_one [] =
    unfold names_one uuid_segment id_segment num_segment starts_uuid then_hex after_dash
      after_run in
    refl
not_one (c ∷ s) = elim (Bool-cases (names_one (c ∷ s))) [ inl b ↦ rw b colon_id | inr b ↦ rw b b ]
  where
    colon_id : names_one (codes ":id") ≡ false
    colon_id =
        unfold codes names_one uuid_segment id_segment num_segment starts_uuid then_hex after_dash
          after_run all_of is_hex_char is_id_char is_digit in
        refl

part-Lacks : (s : Text) → Lacks b'/' s → Lacks b'/' (normalize_part s)
unfolding normalize_part codes
part-Lacks s h =
    if-both (Lacks b'/') (is_nil s) _ _ (λ _. h)
      (λ _.
        if-both (Lacks b'/') (names_one s) _ _
          (λ _. (omega arith, (omega arith, (omega arith, tt)))) (λ _. h))

map-Lacks : (ps : List Text) → All (Lacks b'/') ps → All (Lacks b'/') (map normalize_part ps)
map-Lacks [] h = tt
map-Lacks (p ∷ ps) (h, hs) = (part-Lacks p h, map-Lacks ps hs)

-- No part names one thing.
abbrev pub IsAnonymous : List Text → Type 0
IsAnonymous ps = All (λ p. names_one p ≡ false) ps

map-IsAnonymous : (ps : List Text) → IsAnonymous (map normalize_part ps)
map-IsAnonymous [] = tt
map-IsAnonymous (p ∷ ps) = (not_one p, map-IsAnonymous ps)

split_join_parts :
    (ps : List Text)
    → is_nil ps ≡ false
    → All (Lacks b'/') ps
    → split (join (map normalize_part ps) b'/') b'/' ≡ map normalize_part ps
split_join_parts [] n h = absurd (ground (arith, n))
split_join_parts (p ∷ ps) n h =
    split-join b'/' (normalize_part p) (map normalize_part ps) (map-Lacks (p ∷ ps) h)

bare_parts :
    (path : Text) → (is_nil path || text_eq path (codes "/")) ≡ true → IsAnonymous (split path b'/')
unfolding split split_by normalize_part
bare_parts [] h = (not_one [], tt)
bare_parts (c ∷ s) h =
    subst (λ p. IsAnonymous (split p b'/')) (sym (eq_of_text_eq (c ∷ s) (codes "/") h))
      (unfold codes in (not_one [], (not_one [], tt)))

slashed_parts : (out : Text) → IsAnonymous (split out b'/') → IsAnonymous (split (b'/' ∷ out) b'/')
unfolding split split_by normalize_part
slashed_parts out h = (not_one [], h)

-- No part between the slashes of a path as it is logged is a number, holds a UUID, or is an id of
-- twelve or more letters and digits.
pub normalize_path-IsAnonymous : (path : Text) → IsAnonymous (split (normalize_path path) b'/')
unfolding normalize_path
normalize_path-IsAnonymous path =
    let ps = split path b'/' in
    let out = join (map normalize_part ps) b'/' in
    let parts : IsAnonymous (split out b'/') =
      subst IsAnonymous
        (sym (split_join_parts ps (split_not_nil path b'/') (split-Lacks path b'/')))
        (map-IsAnonymous ps) in
    if-both (λ t. IsAnonymous (split t b'/')) (is_nil path || text_eq path (codes "/")) _ _
      (bare_parts path)
      (λ _.
        if-both (λ t. IsAnonymous (split t b'/')) (has_prefix out (codes "/")) _ _ (λ _. parts)
          (λ _. slashed_parts out parts))
