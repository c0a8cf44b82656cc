-- ===== src/Storage/Sign/Laws.antt =====
-- Which fields of a request are signed, and in which order.
use mathlib.Core.List.{Memᴰ}
use ting_boundless.Base.{
  sym, eq_of_text_eq, subst, mem-append_left, mem_of_any, mem_of_append, mem-append_right, mem-keep,
  text_eq, keep, any, Bool, List, ◌∙◌, ◌++◌, mem-arranged, map, Bool-cases, arranged-IsArranged,
  codes, arith, IsArranged, Text, ◌∷◌, ◌↔◌, ◌⊎◌, ◌≡◌, refl, inr, inl, false, true, [],
}
use ting_boundless.Storage.Sign.{is_signed, signed_names, signed_header_names, Outgoing, text_leb}

pub text_leb_total : (s t : Text) → text_leb s t ≡ false → text_leb t s ≡ true
unfolding text_leb
text_leb_total [] t h = absurd (ground (arith, h))
text_leb_total (c ∷ s) [] h = refl
text_leb_total (c ∷ s) (d ∷ t) h = elim (Bool-cases (text_leb s t)) [
  | inl b ↦ ground (arith, b, h)
  | inr b ↦ ground (arith, b, text_leb_total s t b, h)
]

pub text_leb_trans :
    (s t u : Text) → text_leb s t ≡ true → text_leb t u ≡ true → text_leb s u ≡ true
unfolding text_leb
text_leb_trans [] t u h k = refl
text_leb_trans (c ∷ s) [] u h k = absurd (ground (arith, h))
text_leb_trans (c ∷ s) (d ∷ t) [] h k = absurd (ground (arith, k))
text_leb_trans (c ∷ s) (d ∷ t) (e ∷ u) h k = ground (arith, h, k, text_leb_trans s t u)

-- A field to be signed: the host, or a field of the request that is of the kinds that are signed.
abbrev pub IsSigned : Outgoing → Text → Type 0
IsSigned r k = (k ≡ codes "host") ⊎ Memᴰ k (map (λ f. f.0) r.fields) × (is_signed k ≡ true)

module _ (r : Outgoing) (k : Text) where
  abbrev names : List Text
  names = map (λ f. f.0) r.fields

  abbrev is_host : Text → Bool
  is_host n = text_eq n (codes "host")

  last : Memᴰ k (codes "host" ∷ []) → k ≡ codes "host"
  last (Memᴰ.head e) = e
  last (Memᴰ.tail m) = elim m [ ]

  among : any is_host (keep is_signed names) ≡ true → IsSigned r k → Memᴰ k (keep is_signed names)
  among b (inr h) = (mem-keep is_signed names).1 h
  among b (inl e) =
      let (n, m, h) = mem_of_any is_host (keep is_signed names) b in
      subst (λ j. Memᴰ j (keep is_signed names)) (eq_of_text_eq n (codes "host") h ∙ sym e) m

  with_last : IsSigned r k → Memᴰ k (keep is_signed names ++ codes "host" ∷ [])
  with_last (inl e) = mem-append_right (keep is_signed names) (codes "host" ∷ []) (Memᴰ.head e)
  with_last (inr h) =
      mem-append_left (keep is_signed names) (codes "host" ∷ []) ((mem-keep is_signed names).1 h)

  of_last : Memᴰ k (keep is_signed names ++ codes "host" ∷ []) → IsSigned r k
  of_last m = elim (mem_of_append (keep is_signed names) (codes "host" ∷ []) m) [
    | inl n ↦ inr ((mem-keep is_signed names).0 n)
    | inr n ↦ inl (last n)
  ]

  mem-signed_header_names : Memᴰ k (signed_header_names r.fields) ↔ IsSigned r k
  unfolding signed_header_names
  mem-signed_header_names = elim (Bool-cases (any is_host (keep is_signed names))) [
    | inl b ↦ rw b (λ m. inr ((mem-keep is_signed names).0 m), among b)
    | inr b ↦ rw b (of_last, with_last)
  ]

-- The names that a signature lists are the host and those fields of the request that are its
-- content type or begin with `x-amz-`, in the order of their texts.
pub signed_names_exact :
    (r : Outgoing)
    → IsArranged text_leb (signed_names r) × ((k : Text) → Memᴰ k (signed_names r) ↔ IsSigned r k)
unfolding signed_names
signed_names_exact r =
    let names = signed_header_names r.fields in
    (
      arranged-IsArranged text_leb text_leb_total text_leb_trans names,
      λ k.
          let a = mem-arranged text_leb {x = k} names in
          let b = mem-signed_header_names r k in (λ m. b.0 (a.0 m), λ h. a.1 (b.1 h)),
    )
