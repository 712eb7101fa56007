-- ===== src/Server/Session.antt =====
-- apps/server/src/auth/session-token.ts and auth/require-member.ts: session tokens, and the member
-- who acts in a request. The HMAC under the secret, and the JSON and base64url codecs, are the
-- platform's: they are parameters. The comparison of two buffers is the equality of the texts.
pub mod Laws
use Prim.Native.Char.{code}
use Prim.Native.Nat.{◌^◌}
use Prim.Native.String.{[], ◌∷◌, ◌++◌}
use workspace_os.Base.{
  ℕ, String, Bool, true, false, not, Option, none, some, Result, ok, err, if◌then◌else◌, ◌==◌, eqb,
}
use workspace_os.Base.Text.{trim, is_blank}
use workspace_os.Base.Int.{ℤ, scale, leb_ℤ}
use workspace_os.Base.Number.{Number, finite, nan, pos_inf, neg_inf}
use workspace_os.Base.Date.{Date, at, invalid}
use workspace_os.Core.Member.{Member}

-- `sub` if it is a text, and `exp` if it is a number.
pub record SessionPayload : Type 0 where
  pub sub : Option String
  pub exp : Option Number

pub record SessionClaims : Type 0 where
  pub member_id : String

pub data SessionConfigError : Type 0 where
  empty_secret : SessionConfigError

-- the check of the constructor
unfoldable pub require_secret : String → Result SessionConfigError (Unit {0})
require_secret secret = if is_blank secret then err empty_secret else ok tt

-- the text before the first ".", and the text after it
unfoldable pub split_dot : String → Option (String × String)
split_dot [] = none
split_dot (c ∷ s) =
    let rest = split_dot s in
    if eqb (code c) 46
    then some ([], s)
    else elim rest [ none ↦ none | some (before, after) ↦ some (c ∷ before, after) ]

-- `now.getTime() >= exp`
unfoldable pub time_reaches : Date → Number → Bool
time_reaches (at z) (finite m k) = leb_ℤ m (scale z (2 ^ k))
time_reaches (at z) neg_inf = true
time_reaches _ _ = false

module _ (sign : String → String) (decode : String → Option SessionPayload) where
  abbrev pub accept : Date → Option String → Option Number → Option SessionClaims
  accept now (some sub) (some exp) =
      if time_reaches now exp then none else some (record { member_id = sub })
  accept now _ _ = none

  -- the checks on the payload, once the signature is right
  unfoldable pub read_payload : Date → Option SessionPayload → Option SessionClaims
  read_payload now none = none
  read_payload now (some p) = accept now p.sub p.exp

  -- the checks on the two parts of a token
  unfoldable pub check : Date → String → String → Option SessionClaims
  check now payload signature =
      let claims = read_payload now (decode payload) in
      if payload == "" then none else if not (signature == sign payload) then none else claims

  unfoldable pub verify : String → Date → Option SessionClaims
  verify token now = elim (split_dot token) [
    | none ↦ none
    | some (payload, signature) ↦ check now payload signature
  ]

module _ (sign : String → String) (encode : String → Date → String) where
  unfoldable pub issue : String → Date → String
  issue member_id expires_at =
      let payload = encode member_id expires_at in payload ++ ("." ++ sign payload)

-- what follows the prefix, if the text starts with it
unfoldable pub after_prefix : String → String → Option String
after_prefix [] s = some s
after_prefix (c ∷ p) [] = none
after_prefix (c ∷ p) (d ∷ s) =
    let rest = after_prefix p s in if eqb (code c) (code d) then rest else none

abbrev pub non_empty : String → Option String
non_empty token = if token == "" then none else some token

unfoldable pub bearer_token : Option String → Option String
bearer_token none = none
bearer_token (some header) = elim (after_prefix "Bearer " header) [
  | none ↦ none
  | some token ↦ non_empty (trim token)
]

-- `verify` of the session service, and `find_by_id` of the member repository
unfoldable pub authenticate :
    {Failure : Type 0}
    → (String → Date → Option SessionClaims)
    → (String → Result Failure (Option Member))
    → Option String
    → Date
    → Result Failure (Option Member)
authenticate verify_token find_by_id header now = elim (bearer_token header) [
  | none ↦ ok none
  | some token ↦ elim (verify_token token now) [
    | none ↦ ok none
    | some claims ↦ find_by_id claims.member_id
  ]
]
