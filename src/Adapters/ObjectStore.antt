-- ===== src/Adapters/ObjectStore.antt =====
-- packages/adapters/src/object-store/filesystem-object-store.ts, with the interface and the errors of
-- packages/core/src/ports/object-store.ts. The paths and the files are the platform's: a record of
-- functions on a state of the files is handed in. The listing of the keys is left out.
pub mod Laws
pub mod Confined
pub mod Runs
use Prim.Native.Char.{code}
use Prim.Native.String.{String, [], ◌∷◌}
use workspace_os.Base.{Bool, true, false, ◌||◌, List, Option, Result, ok, err, if◌then◌else◌, eqb}
use workspace_os.Base.Sets.{has}
use workspace_os.Base.Split.{grow}

-- What a call of the platform throws: an error with the code ENOENT, or another.
pub data FsError : Type 0 where
  enoent : FsError
  other_error : String → FsError

-- What is put: a text or bytes, a `Uint8Array`.
pub data Content (D : Type 0) : Type 0 where
  text_content : String → Content D
  bytes_content : D → Content D

-- `F` are the files, `D` are bytes, which a file holds and a read returns; a text is written in its
-- encoding, UTF-8. A call that throws may have changed the files.
pub record Platform (F D : Type 0) : Type 0 where
  pub is_absolute : String → Bool
  pub join : String → String → String
  pub dirname : String → String
  pub mkdir : String → F → Result FsError (Unit {0}) × F
  pub encode : String → D
  pub write_file : String → Content D → F → Result FsError (Unit {0}) × F
  pub read_file : String → F → Result FsError D
  pub remove : String → F → Result FsError (Unit {0}) × F
  pub stat : String → F → Result FsError (Unit {0})

pub data ObjectStoreError : Type 0 where
  invalid_key : String → ObjectStoreError
  object_not_found : String → ObjectStoreError
  fs_error : FsError → ObjectStoreError

-- `text.split(/[\\/]/)`: 47 is "/" and 92 is "\"
unfoldable pub segments : String → List String
segments [] = List.◌∷◌ [] List.[]
segments (c ∷ s) =
    let rest = segments s in
    if eqb (code c) 47 || eqb (code c) 92 then List.◌∷◌ [] rest else grow c rest

abbrev pub fs_result :
    {F : Type 0} → Result FsError (Unit {0}) × F → Result ObjectStoreError (Unit {0}) × F
fs_result (ok done, files) = (ok done, files)
fs_result (err e, files) = (err (fs_error e), files)

-- an error with the code ENOENT is the absence of the object
abbrev pub read_result : {D : Type 0} → String → Result FsError D → Result ObjectStoreError D
read_result key (ok data_read) = ok data_read
read_result key (err enoent) = err (object_not_found key)
read_result key (err (other_error e)) = err (fs_error (other_error e))

abbrev pub stat_result : Result FsError (Unit {0}) → Result ObjectStoreError Bool
stat_result (ok found) = ok true
stat_result (err enoent) = ok false
stat_result (err (other_error e)) = err (fs_error (other_error e))

module _ {F D : Type 0} (platform : Platform F D) (root : String) where
  unfoldable pub resolve_key : String → Result ObjectStoreError String
  resolve_key key =
      if platform.is_absolute key || has (segments key) ".."
      then err (invalid_key key)
      else ok (platform.join root key)

  -- what follows `mkdir`
  abbrev pub write_after :
      String → Content D → Result FsError (Unit {0}) × F → Result ObjectStoreError (Unit {0}) × F
  write_after path content (err e, files) = (err (fs_error e), files)
  write_after path content (ok done, files) = fs_result (platform.write_file path content files)

  unfoldable pub put : String → Content D → F → Result ObjectStoreError (Unit {0}) × F
  put key content files = elim (resolve_key key) [
    | err e ↦ (err e, files)
    | ok path ↦ write_after path content (platform.mkdir (platform.dirname path) files)
  ]

  unfoldable pub get : String → F → Result ObjectStoreError D
  get key files = elim (resolve_key key) [
    | err e ↦ err e
    | ok path ↦ read_result key (platform.read_file path files)
  ]

  unfoldable pub delete : String → F → Result ObjectStoreError (Unit {0}) × F
  delete key files = elim (resolve_key key) [
    | err e ↦ (err e, files)
    | ok path ↦ fs_result (platform.remove path files)
  ]

  unfoldable pub exists : String → F → Result ObjectStoreError Bool
  exists key files = elim (resolve_key key) [
    | err e ↦ err e
    | ok path ↦ stat_result (platform.stat path files)
  ]
