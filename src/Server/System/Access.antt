-- ===== src/Server/System/Access.antt =====
-- build-server.ts: who reaches the work board.
use workspace_os.Base.{String, Bool, Option, none, some, ◌≡◌}
use workspace_os.Base.Date.{Date}
use workspace_os.Server.Session.{SessionPayload, SessionClaims, bearer_token, verify}
use workspace_os.Server.WorkItems
use workspace_os.Server.System.{
  System, Given, Request, post_work_item, get_work_items, post_claim_next, post_move,
}

-- The `authorization` header of a request to the work board.
abbrev pub board_header : Request → Option (Option String)
board_header (post_work_item header body) = some header
board_header (get_work_items header) = some header
board_header (post_claim_next header) = some header
board_header (post_move header move id) = some header
board_header _ = none

module _ (to_lower : String → String) (verify_password : String → String → Bool)
    (sign : String → String) (encode : String → Date → String)
    (decode : String → Option SessionPayload) where
  -- The header carries a token that is accepted at the time.
  abbrev pub HasSession : Given → Option String → Type 0
  HasSession given header =
      (token : String) × (claims : SessionClaims) × (bearer_token header ≡ some token)
      × (verify sign decode token given.now ≡ some claims)
