-- ===== src/Auth/Jwt.antt =====
-- src/auth/jwt.rs and the conversion of claims in src/auth/authuser.rs: the tokens of the API. The
-- JWT library is a parameter.
pub mod Issued
use dreamscroll.Base.{
  ℕ, ◌+◌, ◌%◌, ◌≡◌, ◌≤◌, ◌<◌, Bool, true, false, Option, none, some, List, [], length, ltb,
  if◌then◌else◌,
}
use dreamscroll.Base.Words.{I32}
use dreamscroll.Base.Text.{Text, codes}
use dreamscroll.Base.Results.{Result, ok, err, map_err, and_then, ok_or}
use dreamscroll.Base.Decimal.{show_i32, parse_i32}
use dreamscroll.Auth.{JwtUserClaims, jwt, DreamscrollAuthUser}

-- src/auth/autherror.rs, the errors of tokens.
pub data AuthError : Type 0 where
  missing_or_invalid_header invalid_token : AuthError
  token_creation : Text → AuthError

-- The kinds of the library's errors; `other_kind` stands for those that the conversion does not
-- name.
pub data ErrorKind : Type 0 where
  kind_invalid_token invalid_signature expired_signature immature_signature : ErrorKind
  base64 json utf8 other_kind : ErrorKind

pub record JwtError : Type 0 where
  pub kind : ErrorKind
  pub report : Text

unfoldable pub from_jwt_error : ErrorKind → Text → AuthError
from_jwt_error other_kind report = token_creation report
from_jwt_error kind_invalid_token report = invalid_token
from_jwt_error invalid_signature report = invalid_token
from_jwt_error expired_signature report = invalid_token
from_jwt_error immature_signature report = invalid_token
from_jwt_error base64 report = invalid_token
from_jwt_error json report = invalid_token
from_jwt_error utf8 report = invalid_token

-- The library: keys from a secret, and tokens. `decode` validates the signature, the claims and, at
-- a time and with a leeway, the expiration.
pub record JwtLibrary (E D : Type 0) : Type 0 where
  pub encoding_key : List ℕ → E
  pub decoding_key : List ℕ → D
  pub encode : JwtUserClaims → E → Result JwtError Text
  pub decode : Text → D → ℕ → ℕ → Result JwtError JwtUserClaims

-- The library's round trip: a token of a secret is valid until it expires.
abbrev pub IsFaithful : {E D : Type 0} → JwtLibrary E D → Type 0
IsFaithful jwt_library =
    (secret : List ℕ) (claims : JwtUserClaims) (token : Text) (leeway now : ℕ)
    → jwt_library.encode claims (jwt_library.encoding_key secret) ≡ ok token
    → now ≤ claims.exp + leeway
    → jwt_library.decode token (jwt_library.decoding_key secret) leeway now ≡ ok claims

pub record JwtConfig (E D : Type 0) : Type 0 where
  pub encoding_key : E
  pub decoding_key : D
  pub user_expiration_secs : ℕ
  pub leeway : ℕ

-- `TryFrom<JwtUserClaims>`
pub user_of : JwtUserClaims → I32 → DreamscrollAuthUser
user_of claims id = record {
  id = id;
  username = claims.username;
  is_admin = claims.is_admin;
  storage_shard = claims.storage_shard;
  method = jwt claims;
}

unfoldable pub try_from : JwtUserClaims → Result AuthError DreamscrollAuthUser
unfolding user_of
try_from claims =
    and_then (ok_or invalid_token (parse_i32 claims.sub)) (λ id. ok (user_of claims id))

-- The claims of a user's token that is issued at `now`.
unfoldable pub claims_of : DreamscrollAuthUser → ℕ → ℕ → JwtUserClaims
claims_of user user_expiration_secs now = record {
  sub = show_i32 user.id;
  username = user.username;
  is_admin = user.is_admin;
  exp = (now + user_expiration_secs) % 18446744073709551616;
  iat = now;
  storage_shard = user.storage_shard;
}

module _ {E D : Type 0} (jwt_library : JwtLibrary E D) where
  -- `none` is the panic on a short secret.
  unfoldable pub from_secret : List ℕ → Option (JwtConfig E D)
  from_secret secret =
      if ltb (length secret) 32
      then none
      else some (record {
        encoding_key = jwt_library.encoding_key secret;
        decoding_key = jwt_library.decoding_key secret;
        user_expiration_secs = 86400;
        leeway = 0;
      })

  unfoldable pub with_user_expiration_secs : ℕ → JwtConfig E D → JwtConfig E D
  with_user_expiration_secs secs config = record config { user_expiration_secs = secs }

  unfoldable pub with_leeway : ℕ → JwtConfig E D → JwtConfig E D
  with_leeway secs config = record config { leeway = secs }

  unfoldable pub create_user_token : JwtConfig E D → ℕ → DreamscrollAuthUser → Result AuthError Text
  unfolding claims_of from_jwt_error
  create_user_token config now user =
      map_err (λ e. from_jwt_error e.kind e.report)
        (jwt_library.encode (claims_of user config.user_expiration_secs now) config.encoding_key)

  unfoldable pub decode_user_token : JwtConfig E D → ℕ → Text → Result AuthError JwtUserClaims
  unfolding from_jwt_error
  decode_user_token config now token =
      map_err (λ e. from_jwt_error e.kind e.report)
        (jwt_library.decode token config.decoding_key config.leeway now)

  -- The extractor, from the configuration in the request's extensions and the bearer token of its
  -- header.
  unfoldable pub from_request_parts :
      Option (JwtConfig E D) → Option Text → ℕ → Result AuthError DreamscrollAuthUser
  unfolding decode_user_token try_from
  from_request_parts none bearer now = err invalid_token
  from_request_parts (some config) none now = err missing_or_invalid_header
  from_request_parts (some config) (some token) now =
      and_then (decode_user_token config now token) try_from
