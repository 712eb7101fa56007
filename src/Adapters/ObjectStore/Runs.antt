-- ===== src/Adapters/ObjectStore/Runs.antt =====
-- filesystem-object-store.ts: what the objects are after any number of puts and deletes.
use workspace_os.Base.{
  String, Bool, false, List, [], ◌∷◌, Option, none, some, Result, ok, err, if◌then◌else◌, ◌≡◌, ◌==◌,
}
use workspace_os.Adapters.ObjectStore.{
  Platform, Content, ObjectStoreError, resolve_key, put, delete,
}
use workspace_os.Adapters.ObjectStore.Laws.{bytes_of}

-- A change of the store.
pub data Change (D : Type 0) : Type 0 where
  put_object : String → Content D → Change D
  delete_object : String → Change D

module _ {F D : Type 0} (platform : Platform F D) (root : String) where
  abbrev pub apply_change : Change D → F → Result ObjectStoreError (Unit {0}) × F
  apply_change (put_object key content) files = put platform root key content files
  apply_change (delete_object key) files = delete platform root key files

  -- The changes lead from files to files, and none of them throws.
  pub data Run : List (Change D) → F → F → Type 0 where
    finished : {files : F} → Run [] files files
    then_change :
        {change : Change D} {more : List (Change D)} {files between after : F}
        → apply_change change files ≡ (ok tt, between)
        → Run more between after
        → Run (change ∷ more) files after

  abbrev pub path_is : String → Result ObjectStoreError String → Bool
  path_is path (ok named) = named == path
  path_is path (err e) = false

  -- The bytes that a path holds after a change, by the changes alone: those of the last put of a key
  -- that names the path, and none after a delete of such a key.
  abbrev pub held_after : String → Change D → Option D → Option D
  held_after path (put_object key content) held =
      if path_is path (resolve_key platform root key)
      then some (bytes_of platform content)
      else held
  held_after path (delete_object key) held =
      if path_is path (resolve_key platform root key) then none else held

  abbrev pub held_by : String → List (Change D) → Option D → Option D
  held_by path [] held = held
  held_by path (change ∷ more) held = held_by path more (held_after path change held)

  -- The files hold at the path what the option has.
  abbrev Holds : String → Option D → F → Type 0
  Holds path none files = Unit
  Holds path (some kept) files = platform.read_file path files ≡ ok kept
