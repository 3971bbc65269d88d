-- ===== src/Imgproxy/Signer.antt =====
-- internal/imgproxy/signer.go.
use bfeed.Base.{◌≡◌, ap, sym, ◌∙◌, Bool, true, false, Option, none, some, [], ◌++◌, ◌↔◌, arith}
use bfeed.Base.Text.{Text, text_eq, text_eq_refl, eq_of_text_eq, codes}

-- HMAC with SHA-256 of a secret and a text, encoding/hex and `url.QueryEscape`.
pub record SignLib : Type 0 where
  pub hmac : Text → Text → Text
  pub encode : Text → Text
  pub decode : Text → Option Text
  pub query_escape : Text → Text

-- What is documented of hexadecimal text.
abbrev pub DecodesEncoded : SignLib → Type 0
DecodesEncoded lib = (s : Text) → lib.decode (lib.encode s) ≡ some s

injective : {s t : Text} → some s ≡ some t → s ≡ t
injective h = ap (λ o. elim o [ none ↦ [] | some s ↦ s ]) h

-- A `Signer` is its secret.
module _ (lib : SignLib) (secret : Text) where
  unfoldable pub sign : Text → Text
  sign raw = lib.encode (lib.hmac secret raw)

  unfoldable pub verify : Text → Text → Bool
  verify raw sig = elim (lib.decode sig) [
    | none ↦ false
    | some want ↦ text_eq want (lib.hmac secret raw)
  ]

  unfoldable pub proxy_url : Text → Text
  unfolding sign
  proxy_url raw = codes "/img?u=" ++ (lib.query_escape raw ++ (codes "&s=" ++ sign raw))

  unhex_cases :
      (o : Option Text) (mac : Text)
      → (elim o [ none ↦ false | some want ↦ text_eq want mac ] ≡ true) ↔ (o ≡ some mac)
  unhex_cases none mac = (λ h. absurd (ground (arith, h)), λ h. absurd (ground (arith, h)))
  unhex_cases (some want) mac =
      (λ h. ap some (eq_of_text_eq _ _ h), λ h. rw (injective h) (text_eq_refl mac))

  verify_decoded :
      (raw sig : Text) → (verify raw sig ≡ true) ↔ (lib.decode sig ≡ some (lib.hmac secret raw))
  unfolding verify
  verify_decoded raw sig = unhex_cases (lib.decode sig) (lib.hmac secret raw)

  -- A text verifies an address only if it decodes, and to the HMAC of that address, and then it does. If
  -- decoding undoes encoding, then the signature of an address verifies it, and verifies just those
  -- addresses that have the same HMAC.
  pub verify-sign :
      DecodesEncoded lib
      → (raw : Text)
      → (verify raw (sign raw) ≡ true)
        × (((sig : Text) → (verify raw sig ≡ true) ↔ (lib.decode sig ≡ some (lib.hmac secret raw)))
            × ((other : Text)
                → (verify other (sign raw) ≡ true) ↔ (lib.hmac secret raw ≡ lib.hmac secret other)))
  unfolding sign
  verify-sign law raw =
      let decoded = law (lib.hmac secret raw) in
      (
        (verify_decoded raw (sign raw)).1 decoded,
        (
          verify_decoded raw,
          λ other. (
            λ h. injective (sym decoded ∙ (verify_decoded other (sign raw)).0 h),
            λ h. (verify_decoded other (sign raw)).1 (decoded ∙ ap some h),
          ),
        ),
      )
