-- ===== src/Server/Session/Laws.antt =====
-- session-token.ts: which tokens are accepted.
use Prim.Native.Char.{code}
use Prim.Native.String.{[], ◌∷◌, ◌++◌}
use Prim.Native.String.append
use workspace_os.Base.{
  String, false, Option, none, some, ◌≡◌, ◌≢◌, ◌↔◌, refl, ap, if◌then◌else◌, ◌==◌, eqb, arith, inl,
  inr, Option-cases, eq_iff, eq_refl,
}
use workspace_os.Base.Int.{ℤ}
use workspace_os.Base.Number.{Number, of_ℤ}
use workspace_os.Base.Date.{Date, at}
use workspace_os.Server.Session.{
  SessionPayload, split_dot, time_reaches, accept, read_payload, check, verify, issue,
}

-- A text without a dot: base64url has none.
abbrev pub NoDot : String → Type 0
NoDot [] = Unit
NoDot (c ∷ s) = (eqb (code c) 46 ≡ false) × NoDot s

pub split-append : (p s : String) → NoDot p → split_dot (p ++ ("." ++ s)) ≡ some (p, s)
unfolding split_dot
split-append [] s h =
    rw (append.nil ("." ++ s)) (rw (append.cons _ [] s) (ap (λ t. some ([], t)) (append.nil s)))
split-append (c ∷ p) s (h, hs) = rw (append.cons c p ("." ++ s)) (rw (h, split-append p s hs))

test_of_ne : (s t : String) → s ≢ t → (s == t) ≡ false
test_of_ne s t h = ground (arith, eq_iff s t)

module _ (sign : String → String) (decode : String → Option SessionPayload) where
  -- The token is signed, and what it signs names the member and a time that is not reached.
  pub record IsGenuine (token : String) (now : Date) (member_id : String) : Type 0 where
    pub payload : String
    pub exp : Number
    pub parts : split_dot token ≡ some (payload, sign payload)
    pub present : payload ≢ ""
    pub says : decode payload ≡ some (record { sub = some member_id; exp = some exp })
    pub unexpired : time_reaches now exp ≡ false

  accept_sound :
      (now : Date) (sub : Option String) (exp : Option Number) (m : String)
      → accept sign decode now sub exp ≡ some (record { member_id = m })
      → (e : Number) × (sub ≡ some m) × (exp ≡ some e) × (time_reaches now e ≡ false)
  accept_sound now none exp m h = cc h
  accept_sound now (some sub) none m h = cc h
  accept_sound now (some sub) (some e) m h = (e, ground (arith, h), refl, ground (arith, h))

  payload_path :
      (p : SessionPayload) (sub : Option String) (exp : Option Number)
      → p.sub ≡ sub
      → p.exp ≡ exp
      → p ≡ record { sub = sub; exp = exp }
  payload_path p sub exp h k = λ i. record { sub = h i; exp = k i }

  read_sound :
      (now : Date) (o : Option SessionPayload) (m : String)
      → read_payload sign decode now o ≡ some (record { member_id = m })
      → (e : Number) × (o ≡ some (record { sub = some m; exp = some e }))
        × (time_reaches now e ≡ false)
  unfolding read_payload
  read_sound now none m h = cc h
  read_sound now (some p) m h =
      let (e, sub, exp, unexpired) = accept_sound now p.sub p.exp m h in
      (e, ap some (payload_path p (some m) (some e) sub exp), unexpired)

  check_sound :
      (now : Date) (payload signature m : String)
      → check sign decode now payload signature ≡ some (record { member_id = m })
      → (payload ≢ "")
        × (signature ≡ sign payload)
        × (read_payload sign decode now (decode payload) ≡ some (record { member_id = m }))
  unfolding check
  check_sound now payload signature m h = (
    ground (arith, h, eq_iff payload ""),
    ground (arith, h, eq_iff signature (sign payload)),
    ground (arith, h),
  )

  verify_sound :
      (token : String) (now : Date) (m : String)
      → verify sign decode token now ≡ some (record { member_id = m })
      → IsGenuine token now m
  unfolding verify
  verify_sound token now m h = elim (Option-cases (split_dot token)) [
    | inl no_dot ↦ cc (rw (no_dot, verify) at h)
    | inr ((payload, signature), parts) ↦
        let (present, signed, read) =
          check_sound now payload signature m (rw (parts, verify) at h) in
        let (exp, says, unexpired) = read_sound now (decode payload) m read in
        record {
          payload = payload;
          exp = exp;
          parts = rw (← signed) parts;
          present = present;
          says = says;
          unexpired = unexpired;
        }
  ]

  genuine_verifies :
      (token : String) (now : Date) (m : String)
      → IsGenuine token now m
      → verify sign decode token now ≡ some (record { member_id = m })
  unfolding verify check read_payload
  genuine_verifies token now m g =
      rw (g.parts, verify)
        (rw (test_of_ne g.payload "" g.present, eq_refl (sign g.payload), g.says, g.unexpired))

  -- A token is accepted for a member exactly if it is a payload that is not empty, a dot and the
  -- signature of the payload, and the payload names the member and an expiry that is not reached.
  pub verify_iff :
      (token : String) (now : Date) (m : String)
      → (verify sign decode token now ≡ some (record { member_id = m })) ↔ IsGenuine token now m
  verify_iff token now m = (verify_sound token now m, genuine_verifies token now m)

  -- With codecs that read back what they wrote, in texts that are not empty and have no dot, a token
  -- that was issued for a member until `z` is accepted for that member before `z` and never again.
  pub session_round_trip :
      (encode : String → Date → String) (member_id : String) (z : ℤ) (now : Date)
      → NoDot (encode member_id (at z))
      → encode member_id (at z) ≢ ""
      → decode (encode member_id (at z))
        ≡ some (record { sub = some member_id; exp = some (of_ℤ z) })
      → verify sign decode (issue sign encode member_id (at z)) now
        ≡ (if time_reaches now (of_ℤ z) then none else some (record { member_id = member_id }))
  unfolding verify issue check read_payload
  session_round_trip encode member_id z now plain present back =
      let payload = encode member_id (at z) in
      rw (split-append payload (sign payload) plain, verify)
        (rw (test_of_ne payload "" present, eq_refl (sign payload), back))
