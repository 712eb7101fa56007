-- ===== src/Adapters/ObjectStore/Laws.antt =====
-- filesystem-object-store.ts: what is put is read back, and what is deleted is gone.
use workspace_os.Base.{String, true, false, ◌||◌, Result, ok, err, ◌≡◌, ◌≢◌, refl, sym, ap, ◌∙◌}
use workspace_os.Base.Sets.{has}
use workspace_os.Adapters.ObjectStore.{
  Platform, Content, text_content, bytes_content, FsError, enoent, other_error, invalid_key,
  object_not_found, segments, resolve_key, put, get, delete, exists, write_after, fs_result,
  read_result, stat_result,
}

-- The bytes that a file holds once something was written to it.
abbrev pub bytes_of : {F D : Type 0} → Platform F D → Content D → D
bytes_of p (text_content t) = p.encode t
bytes_of p (bytes_content b) = b

-- What the platform documents of its files: a file that was written is read back, one that was
-- removed is absent, one that is read is there, and the other files stay; a directory that is made changes no file.
pub record IsFiles {F D : Type 0} (p : Platform F D) : Type 0 where
  pub made :
      (dir path : String) (content : D) (files after : F)
      → p.mkdir dir files ≡ (ok tt, after)
      → p.read_file path files ≡ ok content
      → p.read_file path after ≡ ok content
  pub wrote :
      (path : String) (content : Content D) (files after : F)
      → p.write_file path content files ≡ (ok tt, after)
      → p.read_file path after ≡ ok (bytes_of p content)
  pub wrote_only :
      (path other : String) (content : Content D) (kept : D) (files after : F)
      → p.write_file path content files ≡ (ok tt, after)
      → other ≢ path
      → p.read_file other files ≡ ok kept
      → p.read_file other after ≡ ok kept
  pub removed :
      (path : String) (files after : F)
      → p.remove path files ≡ (ok tt, after)
      → (p.read_file path after ≡ err enoent) × (p.stat path after ≡ err enoent)
  pub found :
      (path : String) (content : D) (files : F)
      → p.read_file path files ≡ ok content
      → p.stat path files ≡ ok tt
  pub removed_only :
      (path other : String) (kept : D) (files after : F)
      → p.remove path files ≡ (ok tt, after)
      → other ≢ path
      → p.read_file other files ≡ ok kept
      → p.read_file other after ≡ ok kept

module _ {F D : Type 0} (platform : Platform F D) (root : String) where
  -- The key names the path.
  abbrev pub Names : String → String → Type 0
  Names key path = resolve_key platform root key ≡ ok path

  pub get_at :
      (key path : String) (files : F)
      → Names key path
      → get platform root key files ≡ read_result key (platform.read_file path files)
  unfolding get
  get_at key path files h = rw (h, get)

  pub exists_at :
      (key path : String) (files : F)
      → Names key path
      → exists platform root key files ≡ stat_result (platform.stat path files)
  unfolding exists
  exists_at key path files h = rw (h, exists)

  read_ok :
      (key : String) (r : Result FsError D) (kept : D) → read_result key r ≡ ok kept → r ≡ ok kept
  read_ok key (ok content) kept h = cc h
  read_ok key (err enoent) kept h = cc h
  read_ok key (err (other_error e)) kept h = cc h

  holds :
      (key path : String) (kept : D) (files : F)
      → Names key path
      → get platform root key files ≡ ok kept
      → platform.read_file path files ≡ ok kept
  holds key path kept files named h =
      read_ok key (platform.read_file path files) kept (sym (get_at key path files named) ∙ h)

  done_of :
      (out : Result FsError (Unit {0}) × F) (after : F)
      → fs_result out ≡ (ok tt, after)
      → out ≡ (ok tt, after)
  done_of (ok tt, files) after h = cc h
  done_of (err e, files) after h = cc h

  written_after :
      (path : String) (content : Content D) (out : Result FsError (Unit {0}) × F) (after : F)
      → write_after platform root path content out ≡ (ok tt, after)
      → (between : F) × (out ≡ (ok tt, between))
        × (platform.write_file path content between ≡ (ok tt, after))
  written_after path content (ok tt, between) after h =
      (between, refl, done_of (platform.write_file path content between) after h)
  written_after path content (err e, between) after h = cc h

  pub put_steps :
      (key path : String) (content : Content D) (files after : F)
      → Names key path
      → put platform root key content files ≡ (ok tt, after)
      → (between : F) × (platform.mkdir (platform.dirname path) files ≡ (ok tt, between))
        × (platform.write_file path content between ≡ (ok tt, after))
  unfolding put
  put_steps key path content files after named h =
      written_after path content (platform.mkdir (platform.dirname path) files) after
        (rw (named, put) at h)

  pub delete_step :
      (key path : String) (files after : F)
      → Names key path
      → delete platform root key files ≡ (ok tt, after)
      → platform.remove path files ≡ (ok tt, after)
  unfolding delete
  delete_step key path files after named h =
      done_of (platform.remove path files) after (rw (named, delete) at h)

  -- On a platform whose files keep what is written to them: after a `put` that succeeds the object
  -- is there and `get` returns the bytes that were put, while an object whose key names another path stays.
  pub get-put :
      (key path : String) (content : Content D) (files after : F)
      → IsFiles platform
      → Names key path
      → put platform root key content files ≡ (ok tt, after)
      → (get platform root key after ≡ ok (bytes_of platform content))
        × (exists platform root key after ≡ ok true)
        × ((other elsewhere : String) (kept : D)
            → Names other elsewhere
            → elsewhere ≢ path
            → get platform root other files ≡ ok kept
            → get platform root other after ≡ ok kept)
  get-put key path content files after laws named h =
      let (between, made, wrote) = put_steps key path content files after named h in
      let content_there = laws.wrote path content between after wrote in
      (
        get_at key path after named ∙ ap (read_result key) content_there,
        exists_at key path after named
            ∙ ap stat_result (laws.found path (bytes_of platform content) after content_there),
        λ other elsewhere kept other_named apart held.
            get_at other elsewhere after other_named
            ∙ ap (read_result other) (
                laws.wrote_only path elsewhere content kept between after wrote apart (
                  laws.made (platform.dirname path) elsewhere kept files between made
                    (holds other elsewhere kept files other_named held))),
      )

  -- After a `delete` that succeeds the object is not there and `get` throws that it was not found,
  -- while an object whose key names another path stays.
  pub get-delete :
      (key path : String) (files after : F)
      → IsFiles platform
      → Names key path
      → delete platform root key files ≡ (ok tt, after)
      → (get platform root key after ≡ err (object_not_found key))
        × (exists platform root key after ≡ ok false)
        × ((other elsewhere : String) (kept : D)
            → Names other elsewhere
            → elsewhere ≢ path
            → get platform root other files ≡ ok kept
            → get platform root other after ≡ ok kept)
  get-delete key path files after laws named h =
      let removed = delete_step key path files after named h in
      let (absent, missing) = laws.removed path files after removed in
      (
        get_at key path after named ∙ ap (read_result key) absent,
        exists_at key path after named ∙ ap stat_result missing,
        λ other elsewhere kept other_named apart held.
            get_at other elsewhere after other_named
            ∙ ap (read_result other) (
                laws.removed_only path elsewhere kept files after removed apart
                  (holds other elsewhere kept files other_named held)),
      )

  -- A key that is absolute or goes through a parent directory is refused by every operation, and the
  -- files are not touched.
  pub invalid_key_refused :
      (key : String) (content : Content D) (files : F)
      → (platform.is_absolute key || has (segments key) "..") ≡ true
      → (put platform root key content files ≡ (err (invalid_key key), files))
        × (get platform root key files ≡ err (invalid_key key))
        × (delete platform root key files ≡ (err (invalid_key key), files))
        × (exists platform root key files ≡ err (invalid_key key))
  unfolding put get delete exists resolve_key
  invalid_key_refused key content files h =
      (rw (h, put), rw (h, get), rw (h, delete), rw (h, exists))
