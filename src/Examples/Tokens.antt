-- ===== src/Examples/Tokens.antt =====
-- A small input for the theorem about src/auth/jwt.rs: a library whose tokens are the claims, part
-- by part, without a signature.
use mathlib.Core.Path.{subst}
use dreamscroll.Base.{
  ℕ, ◌≡◌, ◌≤◌, ◌+◌, ◌++◌, refl, ap, ◌∷◌, [], List, Bool, true, false, some, arith, leb, ◌==◌,
  if◌then◌else◌, length, take, drop,
}
use dreamscroll.Base.Text.{Text, codes}
use dreamscroll.Base.Results.{Result, ok, err}
use dreamscroll.Auth.{JwtUserClaims}
use dreamscroll.Auth.Jwt.{
  JwtError, expired_signature, kind_invalid_token, JwtLibrary, IsFaithful, create_user_token,
  from_request_parts, claims_of,
}
use dreamscroll.Auth.Jwt.Issued.{configured, presented, from_request_parts-create_user_token}
use dreamscroll.Examples.{alice}

take-prefix : (s t : Text) → take (length s) (s ++ t) ≡ s
take-prefix [] t = refl
take-prefix (c ∷ s) t = ap (λ r. c ∷ r) (take-prefix s t)

drop-prefix : (s t : Text) → drop (length s) (s ++ t) ≡ t
drop-prefix [] t = refl
drop-prefix (c ∷ s) t = drop-prefix s t

abbrev bit : Bool → ℕ
bit true = 1
bit false = 0

abbrev unpacked : ℕ → ℕ → ℕ → ℕ → ℕ → Text → JwtUserClaims
unpacked exp iat admin n m rest = record {
  sub = take n rest;
  username = take m (drop n rest);
  is_admin = admin == 1;
  exp = exp;
  iat = iat;
  storage_shard = drop m (drop n rest);
}

unpack : Text → ℕ → ℕ → Result JwtError JwtUserClaims
unpack (exp ∷ iat ∷ admin ∷ n ∷ m ∷ rest) leeway now =
    if leb now (exp + leeway)
    then ok (unpacked exp iat admin n m rest)
    else err (record { kind = expired_signature; report = [] })
unpack _ leeway now = err (record { kind = kind_invalid_token; report = [] })

abbrev pack : JwtUserClaims → Text
pack c =
    c.exp
    ∷ c.iat
    ∷ bit c.is_admin
    ∷ length c.sub
    ∷ length c.username
    ∷ (c.sub ++ (c.username ++ c.storage_shard))

abbrev plain : JwtLibrary (List ℕ) (List ℕ)
plain = record {
  encoding_key = λ secret. secret;
  decoding_key = λ secret. secret;
  encode = λ c key. ok (pack c);
  decode = λ token key leeway now. unpack token leeway now;
}

bit-cancel : (b : Bool) → (bit b == 1) ≡ b
bit-cancel true = refl
bit-cancel false = refl

unpack-pack :
    (c : JwtUserClaims) (leeway now : ℕ) → now ≤ c.exp + leeway → unpack (pack c) leeway now ≡ ok c
unfolding unpack
unpack-pack c leeway now h =
    let valid : leb now (c.exp + leeway) ≡ true = ground arith in
    rw valid (
      rw
        (
          take-prefix c.sub (c.username ++ c.storage_shard),
          drop-prefix c.sub (c.username ++ c.storage_shard),
          take-prefix c.username c.storage_shard,
          drop-prefix c.username c.storage_shard,
          bit-cancel c.is_admin,
        )
        refl)

plain-IsFaithful : IsFaithful plain
plain-IsFaithful secret c token leeway now made early =
    let same : pack c ≡ token = cc in
    subst (λ t. unpack t leeway now ≡ ok c) same (unpack-pack c leeway now early)

from_request_parts-create_user_token_example :
    from_request_parts plain
      (some (configured plain (codes "secret") 60 5))
      (some (pack (claims_of alice.user 60 1000)))
      1063
    ≡ ok (presented plain alice.user 60 1000)
unfolding create_user_token
from_request_parts-create_user_token_example =
    from_request_parts-create_user_token plain plain-IsFaithful (codes "secret") 60 5 1000 1063
      alice.user (pack (claims_of alice.user 60 1000)) (omega arith) (omega arith) (omega arith)
      refl
