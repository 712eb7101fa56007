-- ===== src/Base/Text.antt =====
-- Text: `trim` and blank strings, over the code points of a native `String`.
use Prim.Native.Nat.{ℕ}
use Prim.Native.Char.{Char, code}
use Prim.Native.String.{String, [], ◌∷◌, ◌++◌}
use Prim.Native.String.append
use mathlib.Core.Path.{◌≡◌, refl, ap, ◌∙◌, subst}
use mathlib.Core.Logic.{◌↔◌, inl, inr}
use mathlib.Core.Bool.{Bool, true, false, ◌&&◌, ◌||◌}
use text.Mathlib.Text.{◌==◌}
use text.Mathlib.TextEquality.{eq_iff}
use text.Mathlib.TextLemmas.{cons≢nil}
use workspace_os.Base.Tests.{leb, eqb, if◌then◌else◌, Bool-cases}

-- The white space and line terminators that `String.prototype.trim` strips.
unfoldable pub is_white : ℕ → Bool
is_white c =
    (leb 9 c && leb c 13)
    || eqb c 32
    || eqb c 160
    || eqb c 5760
    || (leb 8192 c && leb c 8202)
    || eqb c 8232
    || eqb c 8233
    || eqb c 8239
    || eqb c 8287
    || eqb c 12288
    || eqb c 65279

trim_start : String → String
trim_start [] = []
trim_start (c ∷ s) = if is_white (code c) then trim_start s else c ∷ s

-- `c` before a text that is already trimmed at its end
before_end : Char → String → String
before_end c [] = if is_white (code c) then [] else c ∷ []
before_end c (d ∷ s) = c ∷ d ∷ s

trim_end : String → String
trim_end [] = []
trim_end (c ∷ s) = before_end c (trim_end s)

unfoldable pub trim : String → String
unfolding trim_start trim_end before_end is_white
trim s = trim_end (trim_start s)

-- `value.trim() === ""`
unfoldable pub is_blank : String → Bool
unfolding trim
is_blank s = trim s == ""

abbrev pub AllWhite : String → Type 0
AllWhite [] = Unit
AllWhite (c ∷ s) = (is_white (code c) ≡ true) × AllWhite s

before_end-nil :
    (c : Char) (s : String) → before_end c s ≡ [] → (is_white (code c) ≡ true) × (s ≡ [])
unfolding before_end
before_end-nil c [] h = elim (Bool-cases (is_white (code c))) [
  | inl white ↦ (white, refl)
  | inr black ↦ absurd (cons≢nil (rw (black, before_end) at h))
]
before_end-nil c (d ∷ s) h = absurd (cons≢nil h)

trim_end-nil : (s : String) → trim_end s ≡ [] → AllWhite s
unfolding trim_end
trim_end-nil [] h = tt
trim_end-nil (c ∷ s) h =
    let (white, rest) = before_end-nil c (trim_end s) h in (white, trim_end-nil s rest)

trim_end_of_AllWhite : (s : String) → AllWhite s → trim_end s ≡ []
unfolding trim_end before_end
trim_end_of_AllWhite [] h = refl
trim_end_of_AllWhite (c ∷ s) (white, rest) = rw (trim_end_of_AllWhite s rest) (rw white)

AllWhite-trim_start : (s : String) → AllWhite (trim_start s) → AllWhite s
unfolding trim_start
AllWhite-trim_start [] h = tt
AllWhite-trim_start (c ∷ s) h = elim (Bool-cases (is_white (code c))) [
  | inl white ↦ (white, AllWhite-trim_start s (rw (white, trim_start) at h))
  | inr black ↦ rw (black, trim_start) at h
]

trim_start_of_AllWhite : (s : String) → AllWhite s → trim_start s ≡ []
unfolding trim_start
trim_start_of_AllWhite [] h = refl
trim_start_of_AllWhite (c ∷ s) (white, rest) = rw white (trim_start_of_AllWhite s rest)

-- A text is blank exactly when it holds nothing but white space.
pub is_blank_iff : (s : String) → (is_blank s ≡ true) ↔ AllWhite s
unfolding is_blank trim
is_blank_iff s = (
  λ h. AllWhite-trim_start s (trim_end-nil (trim_start s) ((eq_iff _ _).0 h)),
  λ h. (eq_iff _ _).1 (ap trim_end (trim_start_of_AllWhite s h)),
)

first_black : (c : Char) (s t : String) → is_white (code c) ≡ false → AllWhite ((c ∷ s) ++ t) → ⊥
first_black c s t h white = cc (h, (subst AllWhite (append.cons c s t) white).0)

-- A text that starts with a character that is not white is not blank, whatever is appended to it.
pub is_blank-append :
    (c : Char) (s t : String) → is_white (code c) ≡ false → is_blank ((c ∷ s) ++ t) ≡ false
is_blank-append c s t h = elim (Bool-cases (is_blank ((c ∷ s) ++ t))) [
  | inr named ↦ named
  | inl blank ↦ absurd (first_black c s t h ((is_blank_iff ((c ∷ s) ++ t)).0 blank))
]

-- no white space at the start
abbrev Starts : String → Type 0
Starts [] = Unit
Starts (c ∷ s) = is_white (code c) ≡ false

trim_start-Starts : (s : String) → Starts (trim_start s)
unfolding trim_start
trim_start-Starts [] = tt
trim_start-Starts (c ∷ s) = elim (Bool-cases (is_white (code c))) [
  | inl white ↦ rw (white, trim_start) (trim_start-Starts s)
  | inr black ↦ rw (black, trim_start) black
]

trim_start_of_Starts : (s : String) → Starts s → trim_start s ≡ s
unfolding trim_start
trim_start_of_Starts [] h = refl
trim_start_of_Starts (c ∷ s) h = rw h

before_end-Starts : (c : Char) (s : String) → is_white (code c) ≡ false → Starts (before_end c s)
unfolding before_end
before_end-Starts c [] h = rw h h
before_end-Starts c (d ∷ s) h = h

trim_end-Starts : (s : String) → Starts s → Starts (trim_end s)
unfolding trim_end
trim_end-Starts [] h = tt
trim_end-Starts (c ∷ s) h = before_end-Starts c (trim_end s) h

trim_end-before_end :
    (c : Char) (s : String) → trim_end s ≡ s → trim_end (before_end c s) ≡ before_end c s
unfolding trim_end before_end
trim_end-before_end c [] h = elim (Bool-cases (is_white (code c))) [
  | inl white ↦ rw white
  | inr black ↦ rw black (rw black)
]
trim_end-before_end c (d ∷ s) h = rw h

trim_end_idem : (s : String) → trim_end (trim_end s) ≡ trim_end s
unfolding trim_end
trim_end_idem [] = refl
trim_end_idem (c ∷ s) = trim_end-before_end c (trim_end s) (trim_end_idem s)

-- Trimming a second time changes nothing.
pub trim_idem : (s : String) → trim (trim s) ≡ trim s
unfolding trim
trim_idem s =
    ap trim_end (trim_start_of_Starts _ (trim_end-Starts _ (trim_start-Starts s)))
    ∙ trim_end_idem (trim_start s)
