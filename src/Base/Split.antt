-- ===== src/Base/Split.antt =====
-- `text.split(separator)` for a separator of one character, and that pieces without the separator
-- come back.
use Prim.Native.Nat.{ℕ}
use Prim.Native.Char.{Char, code}
use Prim.Native.String.{String, [], ◌∷◌, ◌++◌}
use Prim.Native.String.append
use mathlib.Core.Path.{◌≡◌, refl}
use mathlib.Core.Bool.{false}
use mathlib.Core.List.{List, ◌++◌ as list_append}
use mathlib.Core.Logic.{◌≢◌, inl, inr}
use workspace_os.Base.Tests.{eqb, eqb_iff, if◌then◌else◌, Bool-cases}

-- `c` in front of the first piece
abbrev pub grow : Char → List String → List String
grow c List.[] = List.◌∷◌ (c ∷ []) List.[]
grow c (List.◌∷◌ piece more) = List.◌∷◌ (c ∷ piece) more

unfoldable pub split_on : ℕ → String → List String
split_on sep [] = List.◌∷◌ [] List.[]
split_on sep (c ∷ s) =
    let rest = split_on sep s in if eqb (code c) sep then List.◌∷◌ [] rest else grow c rest

-- The text does not have the character.
abbrev pub Lacks : ℕ → String → Type 0
Lacks sep [] = Unit
Lacks sep (c ∷ s) = (eqb (code c) sep ≡ false) × Lacks sep s

pub split-one : (sep : ℕ) (s : String) → Lacks sep s → split_on sep s ≡ List.◌∷◌ s List.[]
unfolding split_on
split-one sep [] h = refl
split-one sep (c ∷ s) (h, hs) = rw (h, split-one sep s hs)

-- A piece, the separator, and more: the piece, and the pieces of the rest.
pub split-append :
    (d : Char) (s t : String)
    → Lacks (code d) s
    → split_on (code d) (s ++ ((d ∷ []) ++ t)) ≡ List.◌∷◌ s (split_on (code d) t)
unfolding split_on
split-append d [] t h =
    rw (append.nil ((d ∷ []) ++ t), append.cons d [] t, append.nil t)
      (rw ((eqb_iff (code d) (code d)).1 refl))
split-append d (c ∷ s) t (h, hs) =
    rw (append.cons c s ((d ∷ []) ++ t)) (rw (h, split-append d s t hs))

pub grow-append :
    (c : Char) (xs ys : List String)
    → xs ≢ List.[]
    → grow c (list_append xs ys) ≡ list_append (grow c xs) ys
grow-append c List.[] ys h = elim (h refl) [ ]
grow-append c (List.◌∷◌ x xs) ys h = refl

pub grow_present : (c : Char) (xs : List String) → grow c xs ≢ List.[]
grow_present c List.[] h = cc h
grow_present c (List.◌∷◌ x xs) h = cc h

split_present : (sep : ℕ) (s : String) → split_on sep s ≢ List.[]
unfolding split_on
split_present sep [] h = cc h
split_present sep (c ∷ s) h = elim (Bool-cases (eqb (code c) sep)) [
  | inl cut ↦ cc (rw cut at h)
  | inr kept ↦ grow_present c (split_on sep s) (rw kept at h)
]

-- The separator between two texts separates their pieces.
pub split_on-append :
    (d : Char) (s t : String)
    → split_on (code d) (s ++ ((d ∷ []) ++ t))
      ≡ list_append (split_on (code d) s) (split_on (code d) t)
unfolding split_on
split_on-append d [] t =
    rw (append.nil ((d ∷ []) ++ t), append.cons d [] t, append.nil t)
      (rw ((eqb_iff (code d) (code d)).1 refl) refl)
split_on-append d (c ∷ s) t = elim (Bool-cases (eqb (code c) (code d))) [
  | inl cut ↦ rw (append.cons c s ((d ∷ []) ++ t)) (rw (cut, split_on-append d s t))
  | inr kept ↦ rw (append.cons c s ((d ∷ []) ++ t)) (
      rw (kept, split_on-append d s t)
        (grow-append c (split_on (code d) s) (split_on (code d) t) (split_present (code d) s)))
]
