-- ===== src/Auth/Jwt/Issued.antt =====
-- Tokens that the server has issued.
use dreamscroll.Base.{ℕ, ◌+◌, ◌≡◌, ◌≤◌, ◌<◌, refl, ap, some, List, arith}
use dreamscroll.Base.Text.{Text}
use dreamscroll.Base.Results.{Result, ok, err, map_err}
use dreamscroll.Base.Decimal.RoundTrip.{parse_i32-show_i32}
use dreamscroll.Auth.{jwt, DreamscrollAuthUser}
use dreamscroll.Auth.Jwt.{
  AuthError, from_jwt_error, JwtLibrary, IsFaithful, JwtConfig, user_of, try_from, claims_of,
  create_user_token, decode_user_token, from_request_parts,
}

token-inv :
    {E : Type 0} (f : E → AuthError) (r : Result E Text) (token : Text)
    → map_err f r ≡ ok token
    → r ≡ ok token
token-inv f (ok t) token h = let same : t ≡ token = cc in ap ok same
token-inv f (err e) token h = cc

module _ {E D : Type 0} (jwt_library : JwtLibrary E D) where
  -- The configuration of a secret, with an expiration and a leeway.
  abbrev pub configured : List ℕ → ℕ → ℕ → JwtConfig E D
  configured secret secs leeway = record {
    encoding_key = jwt_library.encoding_key secret;
    decoding_key = jwt_library.decoding_key secret;
    user_expiration_secs = secs;
    leeway = leeway;
  }

  -- What a token gives back: the user, by the token.
  abbrev pub presented : DreamscrollAuthUser → ℕ → ℕ → DreamscrollAuthUser
  presented user secs now = record user { method = jwt (claims_of user secs now) }

  -- A token that was issued for a user authenticates that user, with the permission and the storage
  -- shard of its time, until it expires: with a library that is faithful, an id of 32 bits and an
  -- expiration time of 64 bits.
  pub from_request_parts-create_user_token :
      IsFaithful jwt_library
      → (secret : List ℕ) (secs leeway issued now : ℕ) (user : DreamscrollAuthUser) (token : Text)
      → user.id < 4294967296
      → issued + secs < 18446744073709551616
      → now ≤ issued + secs + leeway
      → create_user_token jwt_library (configured secret secs leeway) issued user ≡ ok token
      → from_request_parts jwt_library (some (configured secret secs leeway)) (some token) now
        ≡ ok (presented user secs issued)
  unfolding create_user_token from_request_parts decode_user_token try_from claims_of user_of
  from_request_parts-create_user_token faithful secret secs leeway issued now user token small fits
        early made =
      let claims = claims_of user secs issued in
      let decoded =
        faithful secret claims token leeway now
          (token-inv (λ e. from_jwt_error e.kind e.report)
            (jwt_library.encode claims (jwt_library.encoding_key secret)) token made)
          (omega (arith, early, fits)) in
      rw decoded (rw (parse_i32-show_i32 user.id small) refl)
