-- ===== src/Adapters/ObjectStore/Confined.antt =====
-- filesystem-object-store.ts: a key that is accepted names a path below the root.
use mathlib.Core.List.{append-nil as list_append-nil, append_assoc as list_append_assoc}
use Prim.Native.Char.{Char, code}
use Prim.Native.String.{String, ◌++◌ as text_append}
use Prim.Native.String.append
use text.Mathlib.TextEquality.{Char-path}
use text.Mathlib.TextLemmas.{append-nil, append_assoc}
use workspace_os.Base.{
  true, false, ◌||◌, List, [], ◌∷◌, ◌++◌, ok, ◌≡◌, ◌≢◌, ◌⊎◌, inl, inr, refl, sym, ap, ◌∙◌, subst,
  arith, eqb, eqb_iff, eq_refl, Bool-cases,
}
use workspace_os.Base.Sets.{has, has-append}
use workspace_os.Base.Split.{Lacks, grow-append, grow_present}
use workspace_os.Adapters.ObjectStore.{Platform, segments, resolve_key}

-- A text of one character.
abbrev pub one : Char → String
one c = String.◌∷◌ c String.[]

segments_present : (s : String) → segments s ≢ []
unfolding segments
segments_present String.[] h = cc h
segments_present (String.◌∷◌ c s) h = elim (Bool-cases (eqb (code c) 47 || eqb (code c) 92)) [
  | inl cut ↦ cc (rw cut at h)
  | inr kept ↦ grow_present c (segments s) (rw kept at h)
]

-- A "/" separates the pieces of the two texts beside it.
pub segments-append :
    (s t : String) → segments (text_append s (text_append "/" t)) ≡ segments s ++ segments t
unfolding segments
segments-append String.[] t =
    rw (append.nil (text_append "/" t), append.cons "/" String.[] t, append.nil t) refl
segments-append (String.◌∷◌ c s) t = elim (Bool-cases (eqb (code c) 47 || eqb (code c) 92)) [
  | inl cut ↦ rw (append.cons c s (text_append "/" t)) (rw (cut, segments-append s t))
  | inr kept ↦ rw (append.cons c s (text_append "/" t)) (
      rw (kept, segments-append s t) (grow-append c (segments s) (segments t) (segments_present s)))
]

parent_has : has (segments "..") ".." ≡ true
unfolding segments has
parent_has = ground (arith, eq_refl "..")

no_parent : (piece : String) → has (segments piece) ".." ≡ false → piece ≢ ".."
no_parent piece h e = cc (parent_has, h, e)

-- What the platform documents of joining a path and a relative one, where `parts` are the names that
-- a normalised path goes through: it goes piece by piece, and a piece that is not the parent directory leads to an entry of the directory, or nowhere ("" and ".").
pub record IsJoin (join : String → String → String) (parts : String → List String) : Type 0 where
  pub step :
      (root piece rest : String)
      → Lacks 47 piece
      → parts (join root (text_append piece (text_append "/" rest)))
        ≡ parts (join (join root piece) rest)
  pub piece :
      (root piece : String)
      → Lacks 47 piece
      → piece ≢ ".."
      → (parts (join root piece) ≡ parts root)
        ⊎ (parts (join root piece) ≡ parts root ++ piece ∷ [])

-- The path lies in the directory, at some depth.
abbrev pub IsBelow : (String → List String) → String → String → Type 0
IsBelow parts root path = (tail : List String) × (parts path ≡ parts root ++ tail)

Lacks-append_one :
    (piece : String) (c : Char)
    → Lacks 47 piece
    → eqb (code c) 47 ≡ false
    → Lacks 47 (text_append piece (one c))
Lacks-append_one String.[] c h hc = subst (Lacks 47) (sym (append.nil (one c))) (hc, tt)
Lacks-append_one (String.◌∷◌ d piece) c (hd, h) hc =
    subst (Lacks 47) (sym (append.cons d piece (one c))) (hd, Lacks-append_one piece c h hc)

-- A character in front of a text, moved to the end of the text before it.
shift :
    (piece rest : String) (c : Char)
    → text_append piece (String.◌∷◌ c rest) ≡ text_append (text_append piece (one c)) rest
shift piece rest c = sym (
    append_assoc piece (one c) rest
    ∙ ap (text_append piece) (append.cons c String.[] rest ∙ ap (String.◌∷◌ c) (append.nil rest)))

slash_text :
    (c : Char) (rest : String) → eqb (code c) 47 ≡ true → String.◌∷◌ c rest ≡ text_append "/" rest
slash_text c rest h =
    ap (λ d. String.◌∷◌ d rest) (Char-path c "/" ((eqb_iff (code c) 47).0 h))
    ∙ sym (append.cons "/" String.[] rest ∙ ap (String.◌∷◌ "/") (append.nil rest))

-- What a key without a parent directory has on either side of a "/".
sides :
    (piece rest : String)
    → has (segments (text_append piece (text_append "/" rest))) ".." ≡ false
    → (has (segments piece) ".." ≡ false) × (has (segments rest) ".." ≡ false)
sides piece rest h =
    let apart : (has (segments piece) ".." || has (segments rest) "..") ≡ false =
      sym (has-append (segments piece) (segments rest) "..")
      ∙ ap (λ xs. has xs "..") (sym (segments-append piece rest))
      ∙ h in
    (ground arith, ground arith)

module _ (join : String → String → String) (parts : String → List String)
    (j : IsJoin join parts) where
  piece-IsBelow :
      (root piece : String) → Lacks 47 piece → piece ≢ ".." → IsBelow parts root (join root piece)
  piece-IsBelow root piece plain h = elim (j.piece root piece plain h) [
    | inl stays ↦ ([], stays ∙ sym (list_append-nil (parts root)))
    | inr enters ↦ (piece ∷ [], enters)
  ]

  IsBelow-trans : (a b c : String) → IsBelow parts a b → IsBelow parts b c → IsBelow parts a c
  IsBelow-trans a b c (t, ab) (u, bc) =
      (t ++ u, bc ∙ ap (λ x. x ++ u) ab ∙ list_append_assoc (parts a) t u)

  same_parts : (a b c : String) → parts b ≡ parts c → IsBelow parts a c → IsBelow parts a b
  same_parts a b c h (tail, e) = (tail, h ∙ e)

  join-IsBelow :
      (rest : String) (root piece : String)
      → Lacks 47 piece
      → has (segments (text_append piece rest)) ".." ≡ false
      → IsBelow parts root (join root (text_append piece rest))
  join-IsBelow String.[] root piece plain h =
      let whole = append-nil piece in
      subst (λ k. IsBelow parts root (join root k)) (sym whole)
        (piece-IsBelow root piece plain
          (no_parent piece (subst (λ k. has (segments k) ".." ≡ false) whole h)))
  join-IsBelow (String.◌∷◌ c rest) root piece plain h = elim (Bool-cases (eqb (code c) 47)) [
    | inl slash ↦
        let whole = ap (text_append piece) (slash_text c rest slash) in
        let (here, there) = sides piece rest (subst (λ k. has (segments k) ".." ≡ false) whole h) in
        subst (λ k. IsBelow parts root (join root k)) (sym whole)
          (same_parts root _ _ (j.step root piece rest plain) (
            IsBelow-trans root (join root piece) (join (join root piece) rest)
              (piece-IsBelow root piece plain (no_parent piece here))
              (subst (λ k. IsBelow parts (join root piece) (join (join root piece) k))
                (append.nil rest)
                (join-IsBelow rest (join root piece) String.[] tt
                  (subst (λ k. has (segments k) ".." ≡ false) (sym (append.nil rest)) there)))))
    | inr other ↦
        subst (λ k. IsBelow parts root (join root k)) (sym (shift piece rest c))
          (join-IsBelow rest root (text_append piece (one c)) (Lacks-append_one piece c plain other)
            (subst (λ k. has (segments k) ".." ≡ false) (shift piece rest c) h))
  ]

module _ {F D : Type 0} (platform : Platform F D) (parts : String → List String) where
  accepted :
      (root key path : String)
      → resolve_key platform root key ≡ ok path
      → (platform.join root key ≡ path) × (has (segments key) ".." ≡ false)
  unfolding resolve_key
  accepted root key path h = ground (arith, h)

  -- On a platform that joins a path piece by piece, every path that a key is resolved to lies in
  -- the directory of the store, whatever the key is.
  pub resolve_key-IsBelow :
      (root key path : String)
      → IsJoin platform.join parts
      → resolve_key platform root key ≡ ok path
      → IsBelow parts root path
  unfolding resolve_key
  resolve_key-IsBelow root key path j h =
      let (same, inside) = accepted root key path h in
      subst (IsBelow parts root) same (
        subst (λ k. IsBelow parts root (platform.join root k)) (append.nil key)
          (join-IsBelow platform.join parts j key root String.[] tt
            (subst (λ k. has (segments k) ".." ≡ false) (sym (append.nil key)) inside)))
