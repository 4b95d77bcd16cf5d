-- ===== src/Spaces/Rows.antt =====
-- The tables of Spaces (src/database/entities). Ids are texts, since a session and a reference hold
-- them as texts.
use gomer.Base.{ℕ, Bool, ◌&&◌, Option, List, find}
use gomer.Base.Text.{String, str_eq}
use gomer.Base.Answers.{Answer, or_refuse, not_found}
use gomer.Spaces.Seeds.{AppSpec}

pub record Space : Type 0 where
  pub id : String
  pub workspace_id : String
  pub slug : String
  pub name : String
  pub description : Option String
  pub is_published : Bool
  pub is_page : Bool
  pub spec : AppSpec

pub record SpaceRecord (N : Type 0) : Type 0 where
  pub id : String
  pub space_id : String
  pub entity_name : String
  pub fields : N
  pub created_by : Option String
  pub created_at : ℕ

pub record SpaceUser : Type 0 where
  pub id : String
  pub space_id : String
  pub email : String
  pub name : Option String
  pub last_login_at : ℕ

pub record SpaceAuthToken : Type 0 where
  pub id : String
  pub space_id : String
  pub email : String
  pub token_hash : String
  pub expires_at : ℕ
  pub used_at : Option ℕ

-- `findPublishedBySlug`
unfoldable pub find_published_by_slug : List Space → String → Answer Space
find_published_by_slug spaces slug =
    or_refuse (find (λ s. str_eq s.slug slug && s.is_published) spaces) not_found
