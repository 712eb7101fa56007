-- ===== src/Tests/Passwords.antt =====
-- apps/server/src/auth/password.ts with a key derivation and a codec that are easy to read: a byte is
-- written as that many "a" and a "b".
use Prim.Native.Char.{code}
use workspace_os.Base.{
  ℕ, zero, suc, ◌+◌, String, true, List, [], ◌∷◌, ◌≡◌, refl, arith, length, if◌then◌else◌, eqb,
}
use workspace_os.Base.Split.{Lacks}
use workspace_os.Server.Password.{
  same_bytes, hash_password, verify_password, stored_form, AreBytes, IsPlatform, verify-hash,
  empty_key_accepts_all,
}

unfoldable unary : ℕ → String → String
unary zero rest = String.◌∷◌ "b" rest
unary (suc n) rest = String.◌∷◌ "a" (unary n rest)

unfoldable to_text : List ℕ → String
to_text [] = ""
to_text (n ∷ ns) = unary n (to_text ns)

unfoldable read_from : ℕ → String → List ℕ
read_from seen String.[] = []
read_from seen (String.◌∷◌ c s) =
    let more = read_from (suc seen) s in
    let next = read_from 0 s in if eqb (code c) 97 then more else seen ∷ next

unfoldable zeros : ℕ → List ℕ
zeros zero = []
zeros (suc n) = 0 ∷ zeros n

abbrev derive : String → List ℕ → ℕ → List ℕ
derive password salt n = zeros n

read-unary :
    (seen n : ℕ) (rest : String) → read_from seen (unary n rest) ≡ (seen + n) ∷ read_from 0 rest
unfolding read_from unary
read-unary seen zero rest = ground arith
read-unary seen (suc n) rest = ground (arith, read-unary (suc seen) n rest)

reads : (bytes : List ℕ) → read_from 0 (to_text bytes) ≡ bytes
unfolding to_text
reads [] = unfold read_from in refl
reads (n ∷ ns) = rw (read-unary 0 n (to_text ns), reads ns) (ground arith)

Lacks-unary : (n : ℕ) (rest : String) → Lacks 36 rest → Lacks 36 (unary n rest)
unfolding unary
Lacks-unary zero rest h = (refl, h)
Lacks-unary (suc n) rest h = (refl, Lacks-unary n rest h)

Lacks-to_text : (bytes : List ℕ) → Lacks 36 (to_text bytes)
unfolding to_text
Lacks-to_text [] = tt
Lacks-to_text (n ∷ ns) = Lacks-unary n (to_text ns) (Lacks-to_text ns)

zeros-AreBytes : (n : ℕ) → AreBytes (zeros n)
unfolding zeros
zeros-AreBytes zero = tt
zeros-AreBytes (suc n) = (omega arith, zeros-AreBytes n)

length-zeros : (n : ℕ) → length (zeros n) ≡ n
unfolding zeros
length-zeros zero = refl
length-zeros (suc n) = rw (length-zeros n) refl

platform : IsPlatform derive to_text (read_from 0)
platform = record {
  reads_back = λ bytes b. reads bytes;
  no_dollar = λ bytes b. Lacks-to_text bytes;
  key_bytes = λ password salt n. zeros-AreBytes n;
  key_length = λ password salt n. length-zeros n;
}

verify-hash_example :
    (verify_password derive
        (read_from 0)
        "guess"
        (hash_password derive to_text (7 ∷ 9 ∷ []) "secret")
      ≡ same_bytes (derive "secret" (7 ∷ 9 ∷ []) 64) (derive "guess" (7 ∷ 9 ∷ []) 64))
    × (verify_password derive
          (read_from 0)
          "secret"
          (hash_password derive to_text (7 ∷ 9 ∷ []) "secret")
        ≡ true)
verify-hash_example =
    verify-hash derive to_text (read_from 0) platform (7 ∷ 9 ∷ []) "secret" "guess"
      (omega arith, (omega arith, tt))

empty_key_accepts_all_test :
    verify_password derive (read_from 0) "anything" (stored_form "ab" "") ≡ true
unfolding read_from
empty_key_accepts_all_test =
    empty_key_accepts_all derive to_text (read_from 0) platform "ab" "" "anything" refl
      (refl, (refl, tt)) tt
