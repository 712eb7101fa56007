-- ===== src/Server/Password.antt =====
-- apps/server/src/auth/password.ts. The key derivation and the hexadecimal codec are the platform's:
-- they are parameters. A buffer is the list of its bytes, and the random salt is drawn by the caller.
use Prim.Native.String.{◌++◌ as text_append}
use workspace_os.Base.{
  ℕ, String, Bool, true, false, not, ◌&&◌, List, ◌∷◌, [], ◌≡◌, refl, ap, ◌∙◌, arith, if◌then◌else◌,
  ◌==◌, eqb, length, All, ◌<◌,
}
use workspace_os.Base.Split.{split_on, Lacks, split-append, split-one}

-- `timingSafeEqual` on buffers of one length
unfoldable pub same_bytes : List ℕ → List ℕ → Bool
same_bytes [] [] = true
same_bytes [] (b ∷ more) = false
same_bytes (a ∷ rest) [] = false
same_bytes (a ∷ rest) (b ∷ more) = let same = same_bytes rest more in eqb a b && same

-- `scrypt$<salt>$<hash>`
abbrev pub stored_form : String → String → String
stored_form salt hash =
    text_append "scrypt" (text_append "$" (text_append salt (text_append "$" hash)))

module _ (scrypt : String → List ℕ → ℕ → List ℕ) (to_hex : List ℕ → String) where
  unfoldable pub hash_password : List ℕ → String → String
  hash_password salt password = stored_form (to_hex salt) (to_hex (scrypt password salt 64))

module _ (scrypt : String → List ℕ → ℕ → List ℕ) (from_hex : String → List ℕ) where
  unfoldable pub check_key : String → List ℕ → List ℕ → Bool
  check_key password salt expected =
      let derived = scrypt password salt (length expected) in
      eqb (length expected) (length derived) && same_bytes expected derived

  unfoldable pub verify_parts : String → List String → Bool
  verify_parts password (scheme ∷ salt ∷ hash ∷ []) =
      if not (scheme == "scrypt") then false else check_key password (from_hex salt) (from_hex hash)
  verify_parts password _ = false

  -- 36 is the code of "$"
  unfoldable pub verify_password : String → String → Bool
  verify_password password stored = verify_parts password (split_on 36 stored)

parts_of_stored :
    (salt hash : String)
    → Lacks 36 salt
    → Lacks 36 hash
    → split_on 36 (stored_form salt hash) ≡ "scrypt" ∷ salt ∷ hash ∷ []
parts_of_stored salt hash no_salt no_hash =
    split-append "$" "scrypt" (text_append salt (text_append "$" hash))
      (refl, (refl, (refl, (refl, (refl, (refl, tt))))))
    ∙ ap (λ pieces. "scrypt" ∷ pieces)
        (split-append "$" salt hash no_salt
          ∙ ap (λ pieces. salt ∷ pieces) (split-one 36 hash no_hash))

nothing_left : (bytes : List ℕ) → length bytes ≡ 0 → same_bytes [] bytes ≡ true
unfolding same_bytes
nothing_left [] h = refl
nothing_left (b ∷ more) h = absurd (omega (arith, h))

same_bytes_refl : (bytes : List ℕ) → same_bytes bytes bytes ≡ true
unfolding same_bytes
same_bytes_refl [] = refl
same_bytes_refl (b ∷ bs) = ground (arith, same_bytes_refl bs)

-- The numbers are bytes.
abbrev pub AreBytes : List ℕ → Type 0
AreBytes bytes = All (λ b. b < 256) bytes

module _ (scrypt : String → List ℕ → ℕ → List ℕ) (to_hex : List ℕ → String)
    (from_hex : String → List ℕ) where
  -- What the platform documents: the hexadecimal digits of bytes read back and hold no "$", and a
  -- derived key is bytes and has the length asked for.
  pub record IsPlatform : Type 0 where
    pub reads_back : (bytes : List ℕ) → AreBytes bytes → from_hex (to_hex bytes) ≡ bytes
    pub no_dollar : (bytes : List ℕ) → AreBytes bytes → Lacks 36 (to_hex bytes)
    pub key_bytes : (password : String) (salt : List ℕ) (n : ℕ) → AreBytes (scrypt password salt n)
    pub key_length :
        (password : String) (salt : List ℕ) (n : ℕ) → length (scrypt password salt n) ≡ n

  verify-hash_other :
      (p : IsPlatform) (salt : List ℕ) (password other : String)
      → AreBytes salt
      → verify_password scrypt from_hex other (hash_password scrypt to_hex salt password)
        ≡ same_bytes (scrypt password salt 64) (scrypt other salt 64)
  unfolding verify_password verify_parts check_key hash_password
  verify-hash_other p salt password other b =
      let key = scrypt password salt 64 in
      let kb = p.key_bytes password salt 64 in
      rw (parts_of_stored (to_hex salt) (to_hex key) (p.no_dollar salt b) (p.no_dollar key kb)) (
        rw (
          p.reads_back salt b,
          p.reads_back key kb,
          p.key_length password salt 64,
          p.key_length other salt 64,
        ))

  -- On a platform as documented, for a salt of bytes: a password is accepted against the stored
  -- hash of another exactly if the two derive the same key with the salt of the hash; so the
  -- password that was hashed is accepted.
  pub verify-hash :
      (p : IsPlatform) (salt : List ℕ) (password other : String)
      → AreBytes salt
      → (verify_password scrypt from_hex other (hash_password scrypt to_hex salt password)
          ≡ same_bytes (scrypt password salt 64) (scrypt other salt 64))
        × (verify_password scrypt from_hex password (hash_password scrypt to_hex salt password)
            ≡ true)
  verify-hash p salt password other b = (
    verify-hash_other p salt password other b,
    verify-hash_other p salt password password b ∙ same_bytes_refl (scrypt password salt 64),
  )

  -- A stored text whose last piece decodes to no byte, such as "scrypt$00$", accepts every password.
  pub empty_key_accepts_all :
      (p : IsPlatform) (salt hash password : String)
      → from_hex hash ≡ []
      → Lacks 36 salt
      → Lacks 36 hash
      → verify_password scrypt from_hex password (stored_form salt hash) ≡ true
  unfolding verify_password verify_parts check_key
  empty_key_accepts_all p salt hash password empty no_salt no_hash =
      rw (parts_of_stored salt hash no_salt no_hash) (
        rw (empty, p.key_length password (from_hex salt) 0)
          (nothing_left (scrypt password (from_hex salt) 0)
            (p.key_length password (from_hex salt) 0)))
