-- ===== src/Base/Sort.antt =====
-- Sorting a list by a test of what stands strictly before what.
use mathlib.Core.Path.{◌≡◌}
use mathlib.Core.Logic.{inl, inr}
use mathlib.Core.Bool.{Bool, true, false}
use mathlib.Core.List.{List, [], ◌∷◌, Perm}
use mathlib.Core.List.Perm
use workspace_os.Base.Tests.{if◌then◌else◌, Bool-cases, All}

module _ {ℓ} {A : Type ℓ} (before : A → A → Bool) where
  -- elements that the test does not tell apart keep their places
  unfoldable pub insert_by : A → List A → List A
  insert_by x [] = x ∷ []
  insert_by x (y ∷ ys) = if before y x then y ∷ insert_by x ys else x ∷ y ∷ ys

  unfoldable pub sort_by : List A → List A
  sort_by [] = []
  sort_by (x ∷ xs) = insert_by x (sort_by xs)

  -- A strict order, up to elements that it does not tell apart.
  pub record IsStrictOrder : Type ℓ where
    pub asym : (a b : A) → before a b ≡ true → before b a ≡ false
    pub level_trans : (a b c : A) → before b a ≡ false → before c b ≡ false → before c a ≡ false

  -- Nothing in the list stands strictly before `a`.
  abbrev pub Leads : A → List A → Type 0
  Leads a xs = All (λ x. before x a ≡ false) xs

  -- Nothing stands strictly before what comes ahead of it.
  abbrev pub IsSorted : List A → Type 0
  IsSorted [] = Unit
  IsSorted (a ∷ xs) = Leads a xs × IsSorted xs

  Leads-trans :
      IsStrictOrder → (a b : A) (xs : List A) → before b a ≡ false → Leads b xs → Leads a xs
  Leads-trans o a b [] h k = tt
  Leads-trans o a b (x ∷ xs) h (k, ks) = (o.level_trans a b x h k, Leads-trans o a b xs h ks)

  Leads-insert :
      (a x : A) (xs : List A) → before x a ≡ false → Leads a xs → Leads a (insert_by x xs)
  unfolding insert_by
  Leads-insert a x [] h k = (h, tt)
  Leads-insert a x (y ∷ ys) h (k, ks) = elim (Bool-cases (before y x)) [
    | inl earlier ↦ rw earlier (k, Leads-insert a x ys h ks)
    | inr later ↦ rw later (h, (k, ks))
  ]

  insert_by-IsSorted :
      IsStrictOrder → (x : A) (xs : List A) → IsSorted xs → IsSorted (insert_by x xs)
  unfolding insert_by
  insert_by-IsSorted o x [] d = (tt, tt)
  insert_by-IsSorted o x (y ∷ ys) (leads, d) = elim (Bool-cases (before y x)) [
    | inl earlier ↦
        rw earlier (Leads-insert y x ys (o.asym y x earlier) leads, insert_by-IsSorted o x ys d)
    | inr later ↦ rw later ((later, Leads-trans o x y ys later leads), (leads, d))
  ]

  pub sort_by-IsSorted : IsStrictOrder → (xs : List A) → IsSorted (sort_by xs)
  unfolding sort_by
  sort_by-IsSorted o [] = tt
  sort_by-IsSorted o (x ∷ xs) = insert_by-IsSorted o x (sort_by xs) (sort_by-IsSorted o xs)

  insert_by-perm : (x : A) (xs : List A) → Perm (insert_by x xs) (x ∷ xs)
  unfolding insert_by
  insert_by-perm x [] = Perm.refl (x ∷ [])
  insert_by-perm x (y ∷ ys) = elim (Bool-cases (before y x)) [
    | inl earlier ↦ rw earlier (Perm.trans (Perm.cons y (insert_by-perm x ys)) (Perm.swap x y ys))
    | inr later ↦ rw later (Perm.refl (x ∷ y ∷ ys))
  ]

  pub sort_by-perm : (xs : List A) → Perm (sort_by xs) xs
  unfolding sort_by
  sort_by-perm [] = Perm.refl []
  sort_by-perm (x ∷ xs) = Perm.trans (insert_by-perm x (sort_by xs)) (Perm.cons x (sort_by-perm xs))
