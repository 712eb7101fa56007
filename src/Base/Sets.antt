-- ===== src/Base/Sets.antt =====
-- JavaScript arrays and `Set`s of strings. A `Set` is the list of its values in insertion order.
use Prim.Native.String.{String}
use mathlib.Core.Path.{◌≡◌, refl, sym, ◌∙◌, ap}
use mathlib.Core.Logic.{inl, inr}
use mathlib.Core.Bool.{Bool, true, false, ◌&&◌, ◌||◌, not}
use mathlib.Core.List.{List, [], ◌∷◌, ◌++◌, append_assoc, append-nil}
use native.Mathlib.Omega.{arith}
use text.Mathlib.Text.{◌==◌}
use text.Mathlib.TextEquality.{eq_iff}
use text.Mathlib.TextPositions.{eq_refl}
use workspace_os.Base.Tests.{if◌then◌else◌, Bool-cases}

-- `xs.includes(x)` and `set.has(x)`
unfoldable pub has : List String → String → Bool
has [] x = false
has (y ∷ ys) x = y == x || has ys x

-- `set.add(x)`
unfoldable pub add : List String → String → List String
unfolding has
add xs x = if has xs x then xs else xs ++ x ∷ []

add_all : List String → List String → List String
add_all acc [] = acc
add_all acc (x ∷ xs) = add_all (add acc x) xs

-- `new Set(xs)`
unfoldable pub set_of : List String → List String
unfolding add_all add
set_of xs = add_all [] xs

-- `xs.filter((y) => y !== x)`
unfoldable pub without : List String → String → List String
without [] x = []
without (y ∷ ys) x = let rest = without ys x in if y == x then rest else y ∷ rest

-- `xs.some((x) => set.has(x))`
unfoldable pub has_any : List String → List String → Bool
unfolding has
has_any set [] = false
has_any set (x ∷ xs) = has set x || has_any set xs

-- `xs.every((x) => set.has(x))`
unfoldable pub has_all : List String → List String → Bool
unfolding has
has_all set [] = true
has_all set (x ∷ xs) = has set x && has_all set xs

abbrev pub IsDistinct : List String → Type 0
IsDistinct [] = Unit
IsDistinct (x ∷ xs) = (has xs x ≡ false) × IsDistinct xs

pub has-append : (xs ys : List String) (x : String) → has (xs ++ ys) x ≡ (has xs x || has ys x)
unfolding has
has-append [] ys x = refl
has-append (z ∷ xs) ys x = ground (arith, has-append xs ys x)

has_one : (x y : String) → has (x ∷ []) y ≡ (x == y)
unfolding has
has_one x y = ground arith

pub has-append_one : (xs : List String) (x y : String) → has (xs ++ x ∷ []) y ≡ (has xs y || x == y)
has-append_one xs x y = has-append xs (x ∷ []) y ∙ ap (λ b. has xs y || b) (has_one x y)

has-add_old : (xs : List String) (x y : String) → has xs x ≡ true → has xs y ≡ (has xs y || x == y)
has-add_old xs x y h = ground (arith, eq_iff x y)

pub has-add : (xs : List String) (x y : String) → has (add xs x) y ≡ (has xs y || x == y)
unfolding add
has-add xs x y = elim (Bool-cases (has xs x)) [
  | inl old ↦ rw (old, add) (has-add_old xs x y old)
  | inr new ↦ rw (new, add) (has-append_one xs x y)
]

has-add_all : (acc xs : List String) (y : String) → has (add_all acc xs) y ≡ (has acc y || has xs y)
unfolding add_all has
has-add_all acc [] y = ground arith
has-add_all acc (x ∷ xs) y = has-add_all (add acc x) xs y ∙ ground (arith, has-add acc x y)

-- A set has exactly the values of the array that it is made from.
pub has-set_of : (xs : List String) (y : String) → has (set_of xs) y ≡ has xs y
unfolding set_of has
has-set_of xs y = has-add_all [] xs y

IsDistinct-append :
    (xs : List String) (x : String) → IsDistinct xs → has xs x ≡ false → IsDistinct (xs ++ x ∷ [])
unfolding has
IsDistinct-append [] x d h = (refl, tt)
IsDistinct-append (y ∷ ys) x (fresh, d) h = (
  has-append ys (x ∷ []) y ∙ ground (arith, eq_iff y x, eq_iff x y),
  IsDistinct-append ys x d (ground arith),
)

pub IsDistinct-add : (xs : List String) (x : String) → IsDistinct xs → IsDistinct (add xs x)
unfolding add
IsDistinct-add xs x d = elim (Bool-cases (has xs x)) [
  | inl old ↦ rw (old, add) d
  | inr new ↦ rw (new, add) (IsDistinct-append xs x d new)
]

IsDistinct-add_all : (acc xs : List String) → IsDistinct acc → IsDistinct (add_all acc xs)
unfolding add_all
IsDistinct-add_all acc [] d = d
IsDistinct-add_all acc (x ∷ xs) d = IsDistinct-add_all (add acc x) xs (IsDistinct-add acc x d)

pub set_of-IsDistinct : (xs : List String) → IsDistinct (set_of xs)
unfolding set_of
set_of-IsDistinct xs = IsDistinct-add_all [] xs tt

-- What the values of `xs` add to `acc` when the two have none in common.
IsDistinct-split :
    (acc : List String) (x : String) (xs : List String)
    → IsDistinct (acc ++ x ∷ xs)
    → has acc x ≡ false
unfolding has
IsDistinct-split [] x xs d = refl
IsDistinct-split (y ∷ ys) x xs (fresh, d) =
    ground (arith, has-append ys (x ∷ xs) y, IsDistinct-split ys x xs d, eq_iff x y, eq_iff y x)

add_all_of_IsDistinct : (acc xs : List String) → IsDistinct (acc ++ xs) → add_all acc xs ≡ acc ++ xs
unfolding add_all add
add_all_of_IsDistinct acc [] d = sym (append-nil acc)
add_all_of_IsDistinct acc (x ∷ xs) d =
    rw (IsDistinct-split acc x xs d)
      (add_all_of_IsDistinct (acc ++ x ∷ []) xs (rw append_assoc d) ∙ append_assoc acc (x ∷ []) xs)

-- Making a set of an array with no repetition keeps the array.
pub set_of_of_IsDistinct : (xs : List String) → IsDistinct xs → set_of xs ≡ xs
unfolding set_of
set_of_of_IsDistinct xs d = add_all_of_IsDistinct [] xs d

pub has-without :
    (xs : List String) (x y : String) → has (without xs x) y ≡ (not (x == y) && has xs y)
unfolding has without
has-without [] x y = ground arith
has-without (z ∷ zs) x y = ground (arith, has-without zs x y, eq_iff z x, eq_iff z y, eq_iff x y)

pub IsDistinct-without : (xs : List String) (x : String) → IsDistinct xs → IsDistinct (without xs x)
unfolding without
IsDistinct-without [] x d = tt
IsDistinct-without (z ∷ zs) x (fresh, d) = elim (Bool-cases (z == x)) [
  | inl same ↦ rw (same, without) (IsDistinct-without zs x d)
  | inr other ↦ rw (other, without) ((has-without zs x z ∙ ground arith, IsDistinct-without zs x d))
]

pub has_any_witness :
    (set xs : List String)
    → has_any set xs ≡ true
    → (x : String) × (has xs x ≡ true) × (has set x ≡ true)
unfolding has_any has
has_any_witness set [] h = cc
has_any_witness set (x ∷ xs) h = elim (Bool-cases (has set x)) [
  | inl here ↦ (x, rw (eq_refl x), here)
  | inr miss ↦
      let (y, listed, held) = has_any_witness set xs (ground arith) in (y, ground arith, held)
]

pub has_any_of :
    (set xs : List String) (x : String) → has xs x ≡ true → has set x ≡ true → has_any set xs ≡ true
unfolding has_any has
has_any_of set [] x h k = cc
has_any_of set (y ∷ ys) x h k = ground (arith, eq_iff y x, has_any_of set ys x)

pub has_all_at :
    (set xs : List String) (x : String) → has_all set xs ≡ true → has xs x ≡ true → has set x ≡ true
unfolding has_all has
has_all_at set [] x h k = cc
has_all_at set (y ∷ ys) x h k = ground (arith, eq_iff y x, has_all_at set ys x)

-- A set answers for a list of values as the array that it is made from does.
pub has_all-set_of : (xs ys : List String) → has_all (set_of xs) ys ≡ has_all xs ys
unfolding has_all
has_all-set_of xs [] = refl
has_all-set_of xs (y ∷ ys) = rw (has-set_of xs y, has_all-set_of xs ys)

pub has_any_same :
    (xs ys zs : List String) → ((x : String) → has xs x ≡ has ys x) → has_any xs zs ≡ has_any ys zs
unfolding has_any
has_any_same xs ys [] h = refl
has_any_same xs ys (z ∷ zs) h = rw (h z, has_any_same xs ys zs h)
