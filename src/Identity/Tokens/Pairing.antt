-- ===== src/Identity/Tokens/Pairing.antt =====
-- What the pair of an issuer and a verifier that were checked is worth.
use video_processor.Prelude.{
  ℕ, ◌<◌, Text, is_empty, Bool, true, false, Bool-cases, Option, Option-cases, some, ◌≡◌, refl, inl,
  inr, arith,
}
use video_processor.Errors.{Result, ok}
use video_processor.Identity.Tokens.{
  Claims, new_user_id, Issuer, Verifier, lookup_key, issue, key_for, verify, check_pair,
}

-- RS256: a token is valid until it expires for whoever finds the public half of its key under
-- its header.
abbrev pub Validates :
    {PrivateKey PublicKey : Type 0}
    → (PrivateKey → Text → Claims → Result Text)
    → ((Option Text → Option PublicKey) → ℕ → Text → Option Claims)
    → (PrivateKey → PublicKey)
    → Type 0
Validates {PrivateKey} {PublicKey} signed_string parse_with_claims public_half =
    (keys : Option Text → Option PublicKey) (key : PrivateKey) (kid token : Text) (claims : Claims)
    (now : ℕ)
    → signed_string key kid claims ≡ ok token
    → keys (some kid) ≡ some (public_half key)
    → now < claims.expires_at
    → parse_with_claims keys now token ≡ some claims

module _ {PrivateKey PublicKey : Type 0} (signed_string : PrivateKey → Text → Claims → Result Text)
    (parse_with_claims : (Option Text → Option PublicKey) → ℕ → Text → Option Claims)
    (public_half : PrivateKey → PublicKey) (equal : PublicKey → PublicKey → Bool) where
  paired :
      (issuer : Issuer PrivateKey) (keys : Verifier PublicKey)
      → ((a b : PublicKey) → equal a b ≡ true → a ≡ b)
      → check_pair public_half equal issuer keys ≡ ok tt
      → lookup_key issuer.key_id keys ≡ some (public_half issuer.private_key)
  unfolding check_pair
  paired issuer keys exact h = elim (Option-cases (lookup_key issuer.key_id keys)) [
    | inl e ↦ absurd (ground arith)
    | inr (key, e) ↦ elim (Bool-cases (equal (public_half issuer.private_key) key)) [
      | inl same ↦ rw e (rw (exact (public_half issuer.private_key) key same) refl)
      | inr other ↦ absurd (ground arith)
    ]
  ]

  -- Where the startup check has passed, a token that the issuer mints for a user whose id is not
  -- empty is verified as that user's until it expires: with RS256 as the JWT library promises it,
  -- and an equality of public keys that holds of one key only.
  pub verify-issue :
      (issuer : Issuer PrivateKey) (keys : Verifier PublicKey) (user token : Text)
      (minted now expires : ℕ)
      → Validates signed_string parse_with_claims public_half
      → ((a b : PublicKey) → equal a b ≡ true → a ≡ b)
      → check_pair public_half equal issuer keys ≡ ok tt
      → is_empty user ≡ false
      → issue signed_string minted issuer user expires ≡ ok token
      → now < expires
      → verify parse_with_claims now keys token ≡ ok user
  unfolding issue verify new_user_id
  verify-issue issuer keys user token minted now expires valid exact h full made before =
      rw
        (valid (key_for keys) issuer.private_key issuer.key_id token
          (record { subject = user; issued_at = minted; expires_at = expires }) now made
          (paired issuer keys exact h) before)
        (rw full refl)
