-- ===== src/Adapters/Vector.antt =====
-- The codec of the column type `vector` in packages/adapters/src/db/schema.ts. How a number is
-- printed and read is the language's: both are handed in. What the database keeps of the text (4-byte
-- numbers, and only as many as the column's dimensions) is not modelled.
use Prim.Native.Char.{Char}
use Prim.Native.String.{◌++◌ as text_append}
use Prim.Native.String.append
use workspace_os.Base.{
  ℕ, String, false, List, [], ◌∷◌, map, Option, none, some, ◌≡◌, ◌≢◌, refl, ap, ◌∙◌, sym, arith,
  if◌then◌else◌, ◌==◌, eq_iff,
}
use workspace_os.Base.Split.{split_on, Lacks, split-one, split-append}

-- `values.join(",")` of texts
unfoldable pub join_comma : List String → String
join_comma [] = ""
join_comma (t ∷ []) = t
join_comma (t ∷ u ∷ more) = text_append t (text_append "," (join_comma (u ∷ more)))

abbrev pub drop_first : String → String
drop_first String.[] = String.[]
drop_first (String.◌∷◌ c s) = s

unfoldable pub drop_last : String → String
drop_last String.[] = String.[]
drop_last (String.◌∷◌ c String.[]) = String.[]
drop_last (String.◌∷◌ c (String.◌∷◌ d s)) = String.◌∷◌ c (drop_last (String.◌∷◌ d s))

-- with the dimensions of the column's configuration, if it has one
unfoldable pub data_type : (ℕ → String) → Option ℕ → String
data_type print_ℕ none = "vector"
data_type print_ℕ (some dimensions) = text_append "vector(" (text_append (print_ℕ dimensions) ")")

module _ {Number : Type 0} (print : Number → String) (read : String → Number) where
  unfoldable pub to_driver : List Number → String
  to_driver value = text_append "[" (text_append (join_comma (map print value)) "]")

  -- `value.slice(1, -1)`, split at the commas
  unfoldable pub from_driver : String → List Number
  from_driver value =
      let trimmed = drop_last (drop_first value) in
      if trimmed == "" then [] else map read (split_on 44 trimmed)

  -- What the language documents of printing a number: the text is not empty and has no comma.
  pub record IsPrinted : Type 0 where
    pub present : (x : Number) → print x ≢ ""
    pub plain : (x : Number) → Lacks 44 (print x)

drop_last-append_one :
    (s : String) (c : Char) → drop_last (text_append s (String.◌∷◌ c String.[])) ≡ s
unfolding drop_last
drop_last-append_one String.[] c = rw (append.nil (String.◌∷◌ c String.[])) refl
drop_last-append_one (String.◌∷◌ d String.[]) c =
    rw (append.cons d String.[] (String.◌∷◌ c String.[]), append.nil (String.◌∷◌ c String.[])) refl
drop_last-append_one (String.◌∷◌ d (String.◌∷◌ e s)) c =
    rw
      (
        append.cons d (String.◌∷◌ e s) (String.◌∷◌ c String.[]),
        append.cons e s (String.◌∷◌ c String.[]),
      )
      (ap (String.◌∷◌ d) (
        ap drop_last (sym (append.cons e s (String.◌∷◌ c String.[])))
        ∙ drop_last-append_one (String.◌∷◌ e s) c))

append_present : (s t : String) → s ≢ "" → text_append s t ≢ ""
append_present String.[] t h e = h refl
append_present (String.◌∷◌ c s) t h e = cc (sym (append.cons c s t) ∙ e)

test_of_ne : (s t : String) → s ≢ t → (s == t) ≡ false
test_of_ne s t h = ground (arith, eq_iff s t)

module _ {Number : Type 0} (print : Number → String) (read : String → Number)
    (p : IsPrinted print read) where
  pieces :
      (x : Number) (xs : List Number)
      → map read (split_on 44 (join_comma (map print (x ∷ xs))))
        ≡ map (λ y. read (print y)) (x ∷ xs)
  unfolding join_comma
  pieces x [] = rw (split-one 44 (print x) (p.plain x))
  pieces x (y ∷ ys) =
      rw (split-append "," (print x) (join_comma (map print (y ∷ ys))) (p.plain x))
        (ap (λ zs. read (print x) ∷ zs) (pieces y ys))

  joined_present : (x : Number) (xs : List Number) → join_comma (map print (x ∷ xs)) ≢ ""
  unfolding join_comma
  joined_present x [] = p.present x
  joined_present x (y ∷ ys) = append_present (print x) _ (p.present x)

  inner :
      (xs : List Number)
      → drop_last (drop_first (to_driver print read xs)) ≡ join_comma (map print xs)
  unfolding to_driver
  inner xs =
      let body = join_comma (map print xs) in
      ap (λ s. drop_last (drop_first s)) (append.cons "[" String.[] (text_append body "]"))
      ∙ ap drop_last (append.nil (text_append body "]"))
      ∙ drop_last-append_one body "]"

  -- If the texts of numbers are not empty and have no comma, the text that the codec makes of a
  -- vector is split into the texts of its numbers: what is read from it are the same number of
  -- numbers in the same order, each as it reads when it is printed, and none for the empty vector.
  pub vector_round_trip :
      (xs : List Number)
      → from_driver print read (to_driver print read xs) ≡ map (λ x. read (print x)) xs
  unfolding from_driver join_comma
  vector_round_trip [] = rw (inner []) refl
  vector_round_trip (x ∷ xs) =
      rw (inner (x ∷ xs), test_of_ne (join_comma (map print (x ∷ xs))) "" (joined_present x xs))
        (pieces x xs)
