-- ===== src/Auth.antt =====
-- src/auth/authuser.rs and src/auth/context.rs: the authenticated user and the security context.
pub mod Jwt
use dreamscroll.Base.{ℕ, Bool}
use dreamscroll.Base.Words.{I32}
use dreamscroll.Base.Text.{Text}

-- src/auth/jwt.rs
pub record JwtUserClaims : Type 0 where
  pub sub : Text
  pub username : Text
  pub is_admin : Bool
  pub exp : ℕ
  pub iat : ℕ
  pub storage_shard : Text

pub data AuthMethod : Type 0 where
  session : Text → AuthMethod
  jwt : JwtUserClaims → AuthMethod

pub record DreamscrollAuthUser : Type 0 where
  pub id : I32
  pub username : Text
  pub is_admin : Bool
  pub storage_shard : Text
  pub method : AuthMethod

pub record Context : Type 0 where
  pub user : DreamscrollAuthUser

unfoldable pub is_admin : Context → Bool
is_admin c = c.user.is_admin

unfoldable pub user_id : Context → I32
user_id c = c.user.id
