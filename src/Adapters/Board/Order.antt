-- ===== src/Adapters/Board/Order.antt =====
-- drizzle-work-item-repository.ts: what `order by ... limit 1` picks, and what `list_open` lists.
use mathlib.Core.Path.{subst}
use mathlib.Core.List.{Memᴰ, Perm}
use mathlib.Core.List.Perm
use workspace_os.Base.{
  Bool, true, false, List, ◌∷◌, [], none, some, ◌≡◌, ◌≢◌, arith, Bool-cases, inl, inr, All, ◌⊎◌,
  sym,
}
use workspace_os.Adapters.Board.{Row, is_before, insert_row, order_rows, where_rows, limit_one}

-- Nothing stands strictly before `a` once `b` does not and `a` is not behind `b`.
not_before_trans :
    (a b c : Row) → is_before b a ≡ false → is_before c b ≡ false → is_before c a ≡ false
unfolding is_before
not_before_trans a b c h k = ground arith

before_asym : (a b : Row) → is_before a b ≡ true → is_before b a ≡ false
unfolding is_before
before_asym a b h = ground arith

before_irrefl : (a : Row) → is_before a a ≡ false
unfolding is_before
before_irrefl a = ground arith

-- No row of the list stands strictly before `a`.
abbrev pub IsFirst : Row → List Row → Type 0
IsFirst a rows = All (λ r. is_before r a ≡ false) rows

IsFirst-trans :
    (a b : Row) (rows : List Row) → is_before b a ≡ false → IsFirst b rows → IsFirst a rows
IsFirst-trans a b [] h k = tt
IsFirst-trans a b (r ∷ rows) h (k, ks) = (not_before_trans a b r h k, IsFirst-trans a b rows h ks)

-- The rows in order: each is before or level with all that follow.
abbrev pub IsOrdered : List Row → Type 0
IsOrdered [] = Unit
IsOrdered (a ∷ rows) = IsFirst a rows × IsOrdered rows

IsFirst-insert :
    (a x : Row) (rows : List Row)
    → is_before x a ≡ false
    → IsFirst a rows
    → IsFirst a (insert_row x rows)
unfolding insert_row
IsFirst-insert a x [] h k = (h, tt)
IsFirst-insert a x (y ∷ ys) h (k, ks) = elim (Bool-cases (is_before y x)) [
  | inl before ↦ rw (before, insert_row) (k, IsFirst-insert a x ys h ks)
  | inr after ↦ rw (after, insert_row) (h, (k, ks))
]

insert_row-IsOrdered : (x : Row) (rows : List Row) → IsOrdered rows → IsOrdered (insert_row x rows)
unfolding insert_row
insert_row-IsOrdered x [] d = (tt, tt)
insert_row-IsOrdered x (y ∷ ys) (first, d) = elim (Bool-cases (is_before y x)) [
  | inl before ↦
      rw (before, insert_row)
        (IsFirst-insert y x ys (before_asym y x before) first, insert_row-IsOrdered x ys d)
  | inr after ↦ rw (after, insert_row) ((after, IsFirst-trans x y ys after first), (first, d))
]

pub order_rows-IsOrdered : (rows : List Row) → IsOrdered (order_rows rows)
unfolding order_rows
order_rows-IsOrdered [] = tt
order_rows-IsOrdered (x ∷ xs) = insert_row-IsOrdered x (order_rows xs) (order_rows-IsOrdered xs)

insert_row-perm : (x : Row) (rows : List Row) → Perm (insert_row x rows) (x ∷ rows)
unfolding insert_row
insert_row-perm x [] = Perm.refl (x ∷ [])
insert_row-perm x (y ∷ ys) = elim (Bool-cases (is_before y x)) [
  | inl before ↦
      rw (before, insert_row) (Perm.trans (Perm.cons y (insert_row-perm x ys)) (Perm.swap x y ys))
  | inr after ↦ rw (after, insert_row) (Perm.refl (x ∷ y ∷ ys))
]

pub order_rows-perm : (rows : List Row) → Perm (order_rows rows) rows
unfolding order_rows
order_rows-perm [] = Perm.refl []
order_rows-perm (x ∷ xs) =
    Perm.trans (insert_row-perm x (order_rows xs)) (Perm.cons x (order_rows-perm xs))

pub All-where :
    (test : Row → Bool) (rows : List Row) → All (λ r. test r ≡ true) (where_rows test rows)
unfolding where_rows
All-where test [] = tt
All-where test (x ∷ xs) = elim (Bool-cases (test x)) [
  | inl passes ↦ rw (passes, where_rows) (passes, All-where test xs)
  | inr fails ↦ rw (fails, where_rows) (All-where test xs)
]

-- What a list of work items shows: the rows that pass the test, each as often as in the table, in
-- descending priority and, within a priority, in ascending time of creation.
pub listed_rows :
    (test : Row → Bool) (rows : List Row)
    → IsOrdered (order_rows (where_rows test rows))
      × Perm (order_rows (where_rows test rows)) (where_rows test rows)
      × All (λ r. test r ≡ true) (where_rows test rows)
listed_rows test rows = (order_rows-IsOrdered _, order_rows-perm _, All-where test rows)

split-IsFirst :
    (a y : Row) (rows : List Row) → IsFirst a (y ∷ rows) → (is_before y a ≡ false) × IsFirst a rows
split-IsFirst a y rows h = h

some_inj : {a b : Row} → some a ≡ some b → b ≡ a
some_inj h = cc

some_first : (x : Row) (rows : List Row) → limit_one (insert_row x rows) ≢ none
unfolding insert_row limit_one
some_first x [] h = cc h
some_first x (y ∷ ys) h = elim (Bool-cases (is_before y x)) [
  | inl before ↦ cc (rw (before, limit_one) at h)
  | inr after ↦ cc (rw (after, limit_one) at h)
]

mem_where_cons :
    (test : Row → Bool) (b x : Row) (xs : List Row)
    → test x ≡ true
    → (Memᴰ b (where_rows test xs) → Memᴰ b xs × (test b ≡ true))
    → Memᴰ b (x ∷ where_rows test xs)
    → Memᴰ b (x ∷ xs) × (test b ≡ true)
mem_where_cons test b x xs passes rest (Memᴰ.head e) = (Memᴰ.head e, rw e passes)
mem_where_cons test b x xs passes rest (Memᴰ.tail m) = let (k, t) = rest m in (Memᴰ.tail k, t)

IsFirst-of_insert :
    (a x : Row) (rows : List Row)
    → IsFirst a (insert_row x rows)
    → (is_before x a ≡ false) × IsFirst a rows
unfolding insert_row
IsFirst-of_insert a x [] (h, k) = (h, tt)
IsFirst-of_insert a x (y ∷ ys) h = elim (Bool-cases (is_before y x)) [
  | inl before ↦
      let (k, ks) = split-IsFirst a y (insert_row x ys) (rw (before, insert_row) at h) in
      let (j, js) = IsFirst-of_insert a x ys ks in (j, (k, js))
  | inr after ↦ let (k, ks) = split-IsFirst a x (y ∷ ys) (rw (after, insert_row) at h) in (k, ks)
]

IsFirst-of_order : (a : Row) (rows : List Row) → IsFirst a (order_rows rows) → IsFirst a rows
unfolding order_rows
IsFirst-of_order a [] h = tt
IsFirst-of_order a (x ∷ xs) h =
    let (k, ks) = IsFirst-of_insert a x (order_rows xs) h in (k, IsFirst-of_order a xs ks)

-- The first row of an ordered table, if there is one, is one of its rows.
first_of_insert :
    (x b : Row) (rows : List Row)
    → limit_one (insert_row x rows) ≡ some b
    → (b ≡ x) ⊎ (limit_one rows ≡ some b)
unfolding insert_row limit_one
first_of_insert x b [] h = inl (some_inj h)
first_of_insert x b (y ∷ ys) h = elim (Bool-cases (is_before y x)) [
  | inl before ↦ inr (rw (before, limit_one) at h)
  | inr after ↦ inl (some_inj (rw (after, limit_one) at h))
]

first_of_order : (b : Row) (rows : List Row) → limit_one (order_rows rows) ≡ some b → Memᴰ b rows
unfolding order_rows limit_one
first_of_order b [] h = cc h
first_of_order b (x ∷ xs) h = elim (first_of_insert x b (order_rows xs) h) [
  | inl e ↦ Memᴰ.head e
  | inr k ↦ Memᴰ.tail (first_of_order b xs k)
]

limit_one-IsFirst :
    (b : Row) (rows : List Row) → IsOrdered rows → limit_one rows ≡ some b → IsFirst b rows
unfolding limit_one
limit_one-IsFirst b [] d h = tt
limit_one-IsFirst b (x ∷ xs) (first, d) h =
    subst (λ a. IsFirst a (x ∷ xs)) (sym (some_inj h)) (before_irrefl x, first)

mem_where :
    (test : Row → Bool) (b : Row) (rows : List Row)
    → Memᴰ b (where_rows test rows)
    → Memᴰ b rows × (test b ≡ true)
unfolding where_rows
mem_where test b [] m = elim m [ ]
mem_where test b (x ∷ xs) m = elim (Bool-cases (test x)) [
  | inl passes ↦
      mem_where_cons test b x xs passes (mem_where test b xs) (rw (passes, where_rows) at m)
  | inr fails ↦ let (k, t) = mem_where test b xs (rw (fails, where_rows) at m) in (Memᴰ.tail k, t)
]

IsFirst-of_where :
    (test : Row → Bool) (a : Row) (rows : List Row)
    → IsFirst a (where_rows test rows)
    → All (λ r. test r ≡ true → is_before r a ≡ false) rows
unfolding where_rows
IsFirst-of_where test a [] h = tt
IsFirst-of_where test a (x ∷ xs) h = elim (Bool-cases (test x)) [
  | inl passes ↦
      let (k, ks) = split-IsFirst a x (where_rows test xs) (rw (passes, where_rows) at h) in
      (λ _. k, IsFirst-of_where test a xs ks)
  | inr fails ↦ (λ t. cc (fails, t), IsFirst-of_where test a xs (rw (fails, where_rows) at h))
]

-- `where test order by ... limit 1`: the row is in the table, passes the test, and no row that passes
-- it stands strictly before.
pub first_row :
    (test : Row → Bool) (b : Row) (rows : List Row)
    → limit_one (order_rows (where_rows test rows)) ≡ some b
    → Memᴰ b rows × (test b ≡ true) × All (λ r. test r ≡ true → is_before r b ≡ false) rows
first_row test b rows h =
    let l = where_rows test rows in
    let (m, t) = mem_where test b rows (first_of_order b l h) in
    (
      m,
      t,
      IsFirst-of_where test b rows
          (IsFirst-of_order b l (limit_one-IsFirst b (order_rows l) (order_rows-IsOrdered l) h)),
    )

-- `limit 1` finds nothing exactly if no row passes the test.
pub no_row :
    (test : Row → Bool) (rows : List Row)
    → limit_one (order_rows (where_rows test rows)) ≡ none
    → All (λ r. test r ≡ false) rows
unfolding where_rows order_rows
no_row test [] h = tt
no_row test (x ∷ xs) h = elim (Bool-cases (test x)) [
  | inl passes ↦
      absurd
        (some_first x (order_rows (where_rows test xs)) (rw (passes, where_rows, order_rows) at h))
  | inr fails ↦ (fails, no_row test xs (rw (fails, where_rows) at h))
]
