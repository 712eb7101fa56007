-- ===== src/Tests/Stores.antt =====
-- The object store, the profiles, the sandbox, the activity log and the vectors of packages/adapters
-- at concrete inputs.
use Prim.Native.String.{◌++◌ as text_append}
use mathlib.Core.List.{append-nil}
use text.Mathlib.TextLemmas.{append_assoc}
use Prim.Native.Char.{code}
use workspace_os.Base.{
  ℕ, String, false, List, [], ◌∷◌, ◌++◌, Option, none, some, Result, ok, err, ◌≡◌, inl, inr, refl,
  ap, sym, ◌∙◌, ◌==◌, if◌then◌else◌, Bool-cases,
}
use workspace_os.Base.Sets.{has}
use workspace_os.Base.Split.{split_on, split_on-append, split-one}
use workspace_os.Adapters.ObjectStore.{
  Platform, Content, text_content, bytes_content, FsError, enoent, resolve_key, segments,
}
use workspace_os.Adapters.ObjectStore.Confined.{IsJoin, IsBelow, resolve_key-IsBelow}
use workspace_os.Adapters.ObjectStore.Runs.{Change, put_object, delete_object, apply_change}

-- Files as a function, and paths that are joined with a "/".
abbrev Files : Type 0
Files = String → Option (List ℕ)

abbrev read : String → Files → Result FsError (List ℕ)
read path files = elim (files path) [ none ↦ err enoent | some content ↦ ok content ]

abbrev found : String → Files → Result FsError (Unit {0})
found path files = elim (files path) [ none ↦ err enoent | some content ↦ ok tt ]

abbrev join : String → String → String
join root key = text_append root (text_append "/" key)

-- An encoding of plain texts: a byte for each character.
abbrev ascii : String → List ℕ
ascii String.[] = []
ascii (String.◌∷◌ c s) = code c ∷ ascii s

abbrev raw : Content (List ℕ) → List ℕ
raw (text_content t) = ascii t
raw (bytes_content b) = b

abbrev disk : Platform Files (List ℕ)
disk = record {
  is_absolute = λ path. false;
  join = join;
  dirname = λ path. path;
  mkdir = λ path files. (ok tt, files);
  encode = ascii;
  write_file =
      λ path content files. (ok tt, λ p. if p == path then some (raw content) else files p);
  read_file = read;
  remove = λ path files. (ok tt, λ p. if p == path then none else files p);
  stat = found;
}

-- The names between the slashes, without the empty ones.
unfoldable named : List String → List String
named [] = []
named (name ∷ more) = let rest = named more in if name == "" then rest else name ∷ rest

abbrev parts : String → List String
parts path = named (split_on 47 path)

named-append : (xs ys : List String) → named (xs ++ ys) ≡ named xs ++ named ys
unfolding named
named-append [] ys = refl
named-append (x ∷ xs) ys = elim (Bool-cases (x == "")) [
  | inl empty ↦ rw (empty, named-append xs ys)
  | inr present ↦ rw (present, named-append xs ys)
]

parts-join : (root key : String) → parts (join root key) ≡ parts root ++ parts key
parts-join root key =
    ap named (split_on-append "/" root key) ∙ named-append (split_on 47 root) (split_on 47 key)

disk_joins : IsJoin join parts
unfolding named
disk_joins = record {
  step = λ root piece rest h. ap parts (
      sym (
        append_assoc root (text_append "/" piece) (text_append "/" rest)
        ∙ ap (text_append root) (append_assoc "/" piece (text_append "/" rest))));
  piece = λ root piece h not_parent. elim (Bool-cases (piece == "")) [
    | inl empty ↦
        inl (parts-join root piece ∙ rw (split-one 47 piece h) (rw empty (append-nil (parts root))))
    | inr present ↦ inr (parts-join root piece ∙ rw (split-one 47 piece h) (rw present refl))
  ];
}

resolve_key-IsBelow_example : IsBelow parts "data" (join "data" "a/b")
unfolding resolve_key segments has
resolve_key-IsBelow_example =
    resolve_key-IsBelow disk parts "data" "a/b" (join "data" "a/b") disk_joins refl

abbrev empty_files : Files
empty_files path = none

-- A text is put, then bytes elsewhere; the text is put again, and the bytes are deleted.
abbrev changes : List (Change (List ℕ))
changes =
    put_object "a/b" (text_content "hello")
    ∷ put_object "c" (bytes_content (1 ∷ 255 ∷ []))
    ∷ put_object "a/b" (text_content "hi")
    ∷ delete_object "c"
    ∷ []

abbrev run_all : List (Change (List ℕ)) → Files → Files
run_all [] files = files
run_all (change ∷ more) files = run_all more (apply_change disk "data" change files).1
