-- ===== src/Files/Laws.antt =====
-- What the statements on the table of files select.
use ting_boundless.Files.{
  has_id, owned_by, selected, File, limit_or_default, first_row, Files, delete_by_id, get_by_id,
  list_by_owner,
}
use ting_boundless.Base.{
  length-take_le, sort_by-IsSorted, take-IsSorted, mem_of_take, mem-sort_by, subst, take, ltb,
  mem_of_any, leb, Bool-cases, text_eq_iff, sort_by, any_of_mem, length, false_of_not, mem-keep,
  IsSorted, any, not, arith, keep, ℕ, List, Text, ◌||◌, ◌≤◌, ◌∷◌, ◌↔◌, ◌≡◌, if◌then◌else◌, refl,
  inr, inl, false, true, [],
}
use ting_boundless.Base.Results.{ok}
use mathlib.Core.List.{Memᴰ}

module _ (s : Files) (connected : s.connected ≡ true) (answers : s.answers ≡ true) where
  deleted_rows :
      (id owner tenant : Text) (f : File)
      → Memᴰ f (keep (λ g. not (selected id owner tenant g)) s.rows)
        ↔ (Memᴰ f s.rows × (selected id owner tenant f ≡ false))
  deleted_rows id owner tenant f =
      let k = mem-keep (λ g. not (selected id owner tenant g)) {x = f} s.rows in
      (λ m. ((k.0 m).0, ground (arith, (k.0 m).1)), λ h. k.1 (h.0, ground (arith, h.1)))

  -- Deletion on a database that answers leaves exactly the rows that the statement does not select,
  -- and reports no error exactly when it selects one.
  pub delete_by_id_exact :
      (id owner tenant : Text) (f : File)
      → (Memᴰ f (delete_by_id s id owner tenant).1.rows
          ↔ (Memᴰ f s.rows × (selected id owner tenant f ≡ false)))
        × (((delete_by_id s id owner tenant).0 ≡ ok tt)
            ↔ ((g : File) × Memᴰ g s.rows × (selected id owner tenant g ≡ true)))
  unfolding delete_by_id
  delete_by_id_exact id owner tenant f = elim (Bool-cases (any (selected id owner tenant) s.rows)) [
    | inl e ↦
        rw (connected, answers, e)
          (
            deleted_rows id owner tenant f,
            (λ h. mem_of_any (selected id owner tenant) s.rows e, λ h. refl),
          )
    | inr e ↦
        rw (connected, answers, e)
          (
            (λ m. (m, unselected id owner tenant f e m), λ h. h.0),
            (
              λ h. cc,
              λ h.
                  let (g, m, k) = h in
                  absurd (ground (arith, any_of_mem (selected id owner tenant) s.rows m k)),
            ),
          )
  ]
    where
      unselected :
          (id owner tenant : Text) (f : File)
          → any (selected id owner tenant) s.rows ≡ false
          → Memᴰ f s.rows
          → selected id owner tenant f ≡ false
      unselected id owner tenant f e m =
          false_of_not (selected id owner tenant f)
            (λ k. ground (arith, any_of_mem (selected id owner tenant) s.rows m k))

  -- A file that the listing holds is a row of the table that the clause of the statement admits; the
  -- newest come first, and there are at most two hundred.
  pub list_by_owner_sound :
      (owner tenant : Text) (limit : ℕ) (fs : List File)
      → list_by_owner s owner tenant limit ≡ ok fs
      → ((f : File) → Memᴰ f fs → Memᴰ f s.rows × (owned_by owner tenant f ≡ true))
        × IsSorted (λ f. f.created_at) fs
        × (length fs ≤ 200)
  unfolding list_by_owner limit_or_default
  list_by_owner_sound owner tenant limit fs h =
      let all = keep (owned_by owner tenant) s.rows in
      let sorted = sort_by (λ f. f.created_at) all in
      let n = if leb limit 0 || ltb 200 limit then 50 else limit in
      let e : take n sorted ≡ fs = ground arith in
      subst
        (λ fs.
          ((f : File) → Memᴰ f fs → Memᴰ f s.rows × (owned_by owner tenant f ≡ true))
          × IsSorted (λ f. f.created_at) fs
          × (length fs ≤ 200))
        e
        (
          λ f m.
              (mem-keep (owned_by owner tenant) s.rows).0
                ((mem-sort_by (λ f. f.created_at) all).0 (mem_of_take n sorted m)),
          take-IsSorted (λ f. f.created_at) n sorted (sort_by-IsSorted (λ f. f.created_at) all),
          ground (arith, length-take_le n sorted),
        )

first_row-eq-ok : (fs : List File) (f : File) → first_row fs ≡ ok f → Memᴰ f fs
unfolding first_row
first_row-eq-ok [] f h = cc
first_row-eq-ok (g ∷ gs) f h = Memᴰ.head (ground arith)

-- The row that is found is a row of the table with that id.
pub get_by_id-eq-ok :
    (s : Files) (id : Text) (f : File) → get_by_id s id ≡ ok f → Memᴰ f s.rows × (f.id ≡ id)
unfolding get_by_id
get_by_id-eq-ok s id f h =
    let m = first_row-eq-ok (keep (has_id id) s.rows) f (ground arith) in
    let (row, same) = (mem-keep (has_id id) s.rows).0 m in
    (row, (text_eq_iff f.id id).0 (unfold has_id in same))
