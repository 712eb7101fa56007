-- ===== src/Adapters/Versions/Laws.antt =====
-- The version tables: what is saved stays, and what the latest version is.
use workspace_os.Base.{
  ℕ, ◌<◌, String, true, List, ◌∷◌, [], Option, none, some, ok, err, ◌≡◌, ◌↔◌, refl, inl, inr, arith,
  All, Result-cases, ltb, Option-cases, Bool-cases, eq_iff, eq_refl, ◌==◌,
}
use workspace_os.Adapters.Versions.{
  VersionRow, version_conflict, is_version, find_row, save_version, later, find_latest_row,
}

module _ {R : Type 0} where
  save_parts :
      (row : VersionRow R) (rows rows' : List (VersionRow R))
      → save_version row rows ≡ ok rows'
      → (find_row row.id row.version rows ≡ none) × (rows' ≡ row ∷ rows)
  unfolding save_version
  save_parts row rows rows' h = ground arith

  version_key :
      (id : String) (n : ℕ) (row : VersionRow R)
      → is_version id n row ≡ true
      → (row.id ≡ id) × (row.version ≡ n)
  version_key id n row h = ground (arith, eq_iff row.id id)

  self_key : (row : VersionRow R) → is_version row.id row.version row ≡ true
  self_key row = ground (arith, eq_refl row.id)

  -- A saved row is found under its key, and no row that was found before is lost.
  pub find_row-upsert_version :
      (row : VersionRow R) (rows rows' : List (VersionRow R))
      → save_version row rows ≡ ok rows'
      → (find_row row.id row.version rows' ≡ some row)
        × ((id : String) (version : ℕ) (old : VersionRow R)
            → find_row id version rows ≡ some old
            → find_row id version rows' ≡ some old)
  unfolding find_row
  find_row-upsert_version row rows rows' h =
      let (fresh, e) = save_parts row rows rows' h in
      (
        rw e (rw (self_key row)),
        λ id version old found. elim (Bool-cases (is_version id version row)) [
          | inl same ↦
              let (i, n) = version_key id version row same in cc (rw (← i, ← n) at found, fresh)
          | inr other ↦ rw e (rw other found)
        ],
      )

  -- A version that fits its column is refused exactly if its id and version are there already.
  pub conflict_iff :
      (row : VersionRow R) (rows : List (VersionRow R))
      → ltb row.version 2147483648 ≡ true
      → (save_version row rows ≡ err (version_conflict row.id row.version))
        ↔ ((old : VersionRow R) × (find_row row.id row.version rows ≡ some old))
  unfolding save_version
  conflict_iff row rows fits = (
    λ h. elim (Option-cases (find_row row.id row.version rows)) [
      | inl fresh ↦ cc (rw (fits, fresh, save_version) at h)
      | inr found ↦ found
    ],
    λ (old, e). rw (fits, e, save_version),
  )

  pub saved_fits :
      (row : VersionRow R) (rows rows' : List (VersionRow R))
      → save_version row rows ≡ ok rows'
      → ltb row.version 2147483648 ≡ true
  unfolding save_version
  saved_fits row rows rows' h = ground arith

  -- What a save leaves of the table: a save that throws leaves it as it was.
  abbrev pub save_left : VersionRow R → List (VersionRow R) → List (VersionRow R)
  save_left row rows = elim (save_version row rows) [ ok rows' ↦ rows' | err e ↦ rows ]

  -- What saves leave, the first one first, whether they are refused or not.
  abbrev pub save_each : List (VersionRow R) → List (VersionRow R) → List (VersionRow R)
  save_each [] rows = rows
  save_each (row ∷ more) rows = save_each more (save_left row rows)

  found_left :
      (row old : VersionRow R) (rows : List (VersionRow R)) (id : String) (version : ℕ)
      → find_row id version rows ≡ some old
      → find_row id version (save_left row rows) ≡ some old
  found_left row old rows id version found = elim (Result-cases (save_version row rows)) [
    | inl (rows', e) ↦
        rw (e, save_left) ((find_row-upsert_version row rows rows' e).1 id version old found)
    | inr (x, e) ↦ rw (e, save_left) found
  ]

  found_each :
      (more : List (VersionRow R)) (old : VersionRow R) (rows : List (VersionRow R)) (id : String)
      (version : ℕ)
      → find_row id version rows ≡ some old
      → find_row id version (save_each more rows) ≡ some old
  found_each [] old rows id version found = found
  found_each (row ∷ more) old rows id version found =
      found_each more old (save_left row rows) id version (found_left row old rows id version found)

  -- After any later saves a saved row is found under its key, and a save of that key is refused.
  pub saved_row_stays :
      (row : VersionRow R) (more rows rows' : List (VersionRow R))
      → save_version row rows ≡ ok rows'
      → (find_row row.id row.version (save_each more rows') ≡ some row)
        × (save_version row (save_each more rows') ≡ err (version_conflict row.id row.version))
  saved_row_stays row more rows rows' h =
      let there : find_row row.id row.version (save_each more rows') ≡ some row =
        found_each more row rows' row.id row.version (find_row-upsert_version row rows rows' h).0 in
      (
        there,
        (conflict_iff row (save_each more rows') (saved_fits row rows rows' h)).1 (row, there),
      )

  -- Every version of the id is before the one given.
  abbrev pub AllEarlier : String → ℕ → List (VersionRow R) → Type 0
  AllEarlier id version rows = All (λ r. r.id ≡ id → r.version < version) rows

  later_early :
      (n : ℕ) (row : VersionRow R) (o : Option (VersionRow R))
      → row.version < n
      → ((last : VersionRow R) → o ≡ some last → last.version < n)
      → (later row o).version < n
  later_early n row none h k = h
  later_early n row (some other) h k = ground (arith, h, k other refl)

  same_version : (a b : VersionRow R) → some a ≡ some b → a.version ≡ b.version
  same_version a b h = ground (arith, h)

  latest_early :
      (id : String) (n : ℕ) (rows : List (VersionRow R)) (last : VersionRow R)
      → AllEarlier id n rows
      → find_latest_row id rows ≡ some last
      → last.version < n
  unfolding find_latest_row
  latest_early id n [] last h e = cc e
  latest_early id n (row ∷ rows) last (h, hs) e = elim (Bool-cases (row.id == id)) [
    | inr other ↦ latest_early id n rows last hs (rw (other, find_latest_row) at e)
    | inl same ↦
        rw
          (← same_version (later row (find_latest_row id rows)) last
            (rw (same, find_latest_row) at e))
          (later_early n row (find_latest_row id rows) (h ((eq_iff row.id id).0 same))
            (λ o k. latest_early id n rows o hs k))
  ]

  -- A row that is saved as a version after all versions of its id is the latest one of the id.
  pub latest_row :
      (row : VersionRow R) (rows rows' : List (VersionRow R))
      → save_version row rows ≡ ok rows'
      → AllEarlier row.id row.version rows
      → find_latest_row row.id rows' ≡ some row
  unfolding find_latest_row
  latest_row row rows rows' h early = elim (Option-cases (find_latest_row row.id rows)) [
    | inl nothing ↦ rw (save_parts row rows rows' h).1 (rw (eq_refl row.id, nothing))
    | inr (last, e) ↦
        rw (save_parts row rows rows' h).1 (
          rw (eq_refl row.id, e)
            (ground (arith, latest_early row.id row.version rows last early e)))
  ]
