-- ===== src/Identity/Tokens.antt =====
-- internal/identity/infrastructure/jwtauth/jwtauth.go: the issuer and the verifier of access
-- tokens. The JWT library, PEM and x509 are parameters; times are in seconds.
pub mod Pairing
use video_processor.Prelude.{
  ℕ, Text, codes, is_empty, text_eq, Bool, true, false, ◌||◌, if◌then◌else◌, Option, none, some,
  List, [], ◌∷◌,
}
use video_processor.Errors.{
  Error, Result, sentinel, plain, ok, err, ◌>>=◌, ◌>>◌, refuse_if, invalid_token, key_pair_mismatch,
  public_keys_required, public_key_id_required, private_key_as_verification_material,
  private_key_required, key_id_required, invalid_identity_user_id,
}
use video_processor.Identity.Users.{trim_space}

-- `jwt.RegisteredClaims`, as far as it is used.
pub record Claims : Type 0 where
  pub subject : Text
  pub issued_at : ℕ
  pub expires_at : ℕ

pub record PemBlock : Type 0 where
  pub is_private_type : Bool  -- its type contains "PRIVATE KEY"
  pub bytes : Text

unfoldable pub new_user_id : Text → Result Text
new_user_id value = if is_empty value then err (sentinel invalid_identity_user_id) else ok value

pub record Issuer (PrivateKey : Type 0) : Type 0 where
  pub private_key : PrivateKey
  pub key_id : Text

-- The map of the verifier.
abbrev pub Verifier : Type 0 → Type 0
Verifier PublicKey = List (Text × PublicKey)

unfoldable pub lookup_key : {PublicKey : Type 0} → Text → Verifier PublicKey → Option PublicKey
lookup_key kid [] = none
lookup_key kid ((k, key) ∷ keys) = if text_eq k kid then some key else lookup_key kid keys

-- `pem.Decode`, and `x509.ParsePKCS8PrivateKey` to an RSA key.
module _ {PrivateKey : Type 0} (decode_pem : Text → Option PemBlock)
    (parse_private : Text → Result PrivateKey) where
  abbrev pub issuer_of : Text → Option PemBlock → Result (Issuer PrivateKey)
  issuer_of kid none = err (plain (codes "not valid PEM"))
  issuer_of kid (some block) = do
    key ← parse_private block.bytes
    ok (record { private_key = key; key_id = kid })

  unfoldable pub new_issuer : Text → Text → Result (Issuer PrivateKey)
  new_issuer pem kid = do
    refuse_if (is_empty (trim_space pem)) private_key_required
    refuse_if (is_empty (trim_space kid)) key_id_required
    issuer_of kid (decode_pem pem)

-- `isPrivateKey`, a try of three parsers of x509, and `x509.ParsePKIXPublicKey` to an RSA key.
module _ {PublicKey : Type 0} (decode_pem : Text → Option PemBlock) (is_private_key : Text → Bool)
    (parse_public : Text → Result PublicKey) where
  abbrev pub public_of : Option PemBlock → Result PublicKey
  public_of none = err (plain (codes "not valid PEM"))
  public_of (some block) = do
    refuse_if (block.is_private_type || is_private_key block.bytes)
        private_key_as_verification_material
    parse_public block.bytes

  unfoldable pub parse_public_key : Text → Result PublicKey
  parse_public_key pem = public_of (decode_pem pem)

  unfoldable pub parse_keys : List (Text × Text) → Result (Verifier PublicKey)
  parse_keys [] = ok []
  parse_keys ((kid, pem) ∷ entries) = do
    refuse_if (is_empty (trim_space kid)) public_key_id_required
    key ← parse_public_key pem
    keys ← parse_keys entries
    ok ((kid, key) ∷ keys)

  -- The entries in the order in which the loop meets them.
  unfoldable pub new_verifier : List (Text × Text) → Result (Verifier PublicKey)
  new_verifier [] = err (sentinel public_keys_required)
  new_verifier (e ∷ entries) = parse_keys (e ∷ entries)

-- `SignedString` with RS256, under a key and a `kid` header.
unfoldable pub issue :
    {PrivateKey : Type 0} (signed_string : PrivateKey → Text → Claims → Result Text)
    → ℕ
    → Issuer PrivateKey
    → Text
    → ℕ
    → Result Text
issue signed_string now issuer user expires =
    signed_string issuer.private_key issuer.key_id
      (record { subject = user; issued_at = now; expires_at = expires })

abbrev pub key_for : {PublicKey : Type 0} → Verifier PublicKey → Option Text → Option PublicKey
key_for keys none = none
key_for keys (some kid) = lookup_key kid keys

abbrev pub user_of : Result Text → Result Text
user_of (ok user) = ok user
user_of (err e) = err (sentinel invalid_token)

abbrev pub verified : Option Claims → Result Text
verified none = err (sentinel invalid_token)
verified (some claims) = user_of (new_user_id claims.subject)

-- `ParseWithClaims` with RS256 alone: it asks the key function for the key of the header, `none` for
-- a header without one, and answers the claims of a token that is valid at the time.
module _ {PublicKey : Type 0}
    (parse_with_claims : (Option Text → Option PublicKey) → ℕ → Text → Option Claims) where
  unfoldable pub verify : ℕ → Verifier PublicKey → Text → Result Text
  verify now keys token = verified (parse_with_claims (key_for keys) now token)

-- `PublicKey.Equal` on the public half of a private key.
module _ {PrivateKey PublicKey : Type 0} (public_half : PrivateKey → PublicKey)
    (equal : PublicKey → PublicKey → Bool) where
  abbrev pub pair_found : Issuer PrivateKey → Option PublicKey → Result (Unit {0})
  pair_found issuer none = err (sentinel key_pair_mismatch)
  pair_found issuer (some key) =
      if equal (public_half issuer.private_key) key then ok tt else err (sentinel key_pair_mismatch)

  unfoldable pub check_pair : Issuer PrivateKey → Verifier PublicKey → Result (Unit {0})
  check_pair issuer keys = pair_found issuer (lookup_key issuer.key_id keys)
