-- ===== src/Spaces/Guard.antt =====
-- `SpaceAuthGuard` (src/spaces/guards/space-auth.guard.ts) and `verifySession` of
-- src/spaces/spaces-auth.service.ts: who a request to a Space comes from.
use gomer.Base.{ℕ, Option, none, some}
use gomer.Base.Text.{String, strip_text}
use gomer.Spaces.Json.{Value, Props, own}
use gomer.Spaces.Checks.{equals}
use gomer.Base.Answers.{Answer, given, unauthorized, ◌>>=◌, ◌>>◌, or_refuse, guard}
use gomer.Spaces.Rows.{Space, find_published_by_slug}
use gomer.Spaces.Sessions.{Platform, Tables}

-- The token of a header, after `Bearer `.
unfoldable pub bearer : Option String → Option String
unfolding strip_text
bearer none = none
bearer (some s) = strip_text "Bearer " s

module _ (p : Platform) where
  open p use {Num, verify}

  -- The claims that a visitor's session gives; a claim that is no text is undefined here.
  pub record Claimed : Type 0 where
    pub space_user_id : Option (Value Num)
    pub space_id : Option (Value Num)
    pub email : Option (Value Num)

  abbrev pub claimed : Props Num → Answer Claimed
  claimed claims = do
    guard (equals "space" (own "scope" claims)) unauthorized
    given (record {
      space_user_id = own "sub" claims;
      space_id = own "spaceId" claims;
      email = own "email" claims;
    })

  -- `verifySession`
  unfoldable pub verify_session : ℕ → String → Answer Claimed
  unfolding own equals
  verify_session now token = or_refuse (verify now token) unauthorized >>= claimed

  abbrev pub pinned : Claimed → Space → Answer (Space × Claimed)
  pinned visitor space = do
    guard (equals space.id visitor.space_id) unauthorized
    given (space, visitor)

  abbrev pub let_in : String → Tables → Claimed → Answer (Space × Claimed)
  let_in slug t visitor = find_published_by_slug t.spaces slug >>= pinned visitor

  abbrev pub check_token : ℕ → String → Tables → String → Answer (Space × Claimed)
  check_token now slug t token = verify_session now token >>= let_in slug t

  -- `canActivate` of SpaceAuthGuard: the Space and the visitor of the request.
  unfoldable pub can_activate : ℕ → Option String → String → Tables → Answer (Space × Claimed)
  unfolding verify_session find_published_by_slug equals bearer
  can_activate now header slug t = or_refuse (bearer header) unauthorized >>= check_token now slug t
