-- ===== src/Cloudflare/Client/Verify.antt =====
-- frp-backend/internal/integration/cloudflare/client.go: `VerifyToken` and `ValidateTokenAndZone`.
use ashan_frp.Base.{
  ℕ, String, ◌<>◌, ◌≡◌, refl, Option, none, some, List, [], ◌∷◌, inl, inr, Bool-cases,
}
use ashan_frp.Base.{◌==◌, string_eq, if◌then◌else◌}
use ashan_frp.Base.Result.{Result, ok, failed}
use ashan_frp.Base.Text.{trim_space}
use ashan_frp.Cloudflare.Answer.{HttpAnswer, unsent, unread, answered, read_answer}
use ashan_frp.Cloudflare.Client.{
  Api, Client, DnsRecord, auth_method_global_api_key, credential_secret, headers, list_zones,
  list_records,
}

abbrev pub token_unconfigured : String
token_unconfigured = "CLOUDFLARE_NOT_CONFIGURED: Cloudflare credential is not configured"

abbrev pub zone_not_found : String
zone_not_found = "CLOUDFLARE_ZONE_NOT_FOUND: Cloudflare Zone not found"

-- The answer to the question for a token, whose body has no result.
unfoldable pub read_verification : HttpAnswer Unit → Result Unit
unfolding read_answer
read_verification (unsent e) = failed ("cloudflare verify token: " <> e)
read_verification (unread e) = read_answer "cloudflare verify token" (unread e)
read_verification (answered status body) =
    read_answer "cloudflare verify token" (answered status body)

-- A global key is good where it can list a zone.
unfoldable pub verified_by_zones : Option (Result (List (String × String))) → Option (Result Unit)
verified_by_zones none = none
verified_by_zones (some (failed e)) = some (failed ("cloudflare verify global API key: " <> e))
verified_by_zones (some (ok [])) = some (failed zone_not_found)
verified_by_zones (some (ok (z ∷ zs))) = some (ok tt)

unfoldable pub verified_by_records : Option (Result (List DnsRecord)) → Option (Result Unit)
verified_by_records none = none
verified_by_records (some (failed e)) =
    some (failed ("cloudflare verify Zone DNS read access: " <> e))
verified_by_records (some (ok rs)) = some (ok tt)

-- `verify` is the request to the address that verifies a token.
module _ {Z : Type 0} (api : Api Z) (verify : List (String × String) → Z → HttpAnswer Unit) where
  -- `VerifyToken`, with fuel for the pages of the zones.
  unfoldable pub verify_token : ℕ → Client → Z → Option (Result Unit)
  unfolding credential_secret verified_by_zones list_zones read_verification headers
  verify_token fuel c z =
      if trim_space (credential_secret c) == ""
      then some (failed token_unconfigured)
      else if c.auth_method == auth_method_global_api_key
      then if trim_space c.email == ""
        then some (
            failed
              "CLOUDFLARE_EMAIL_REQUIRED: Cloudflare account email is required for Global API Key")
        else verified_by_zones (list_zones api fuel c z)
      else some (read_verification (verify (headers c) z))

  after_token : ℕ → Client → Z → Option (Result Unit) → Client × Option (Result Unit)
  unfolding verified_by_records list_records
  after_token fuel c z none = (c, none)
  after_token fuel c z (some (failed e)) = (c, some (failed e))
  after_token fuel c z (some (ok done)) =
      let (c', records) = list_records api fuel c z in (c', verified_by_records records)

  -- `ValidateTokenAndZone`, with the client after it.
  unfoldable pub validate_token_and_zone : ℕ → Client → Z → Client × Option (Result Unit)
  unfolding after_token verify_token
  validate_token_and_zone fuel c z =
      if trim_space c.api_token == ""
      then (c, some (failed "cloudflare API Token is empty"))
      else if trim_space c.zone_id == ""
      then (c, some (failed "cloudflare Zone name or Zone ID is required"))
      else after_token fuel c z (verify_token fuel c z)

  verified_by_records-ok :
      (o : Option (Result (List DnsRecord)))
      → verified_by_records o ≡ some (ok tt)
      → (rs : List DnsRecord) × (o ≡ some (ok rs))
  unfolding verified_by_records
  verified_by_records-ok none h = cc
  verified_by_records-ok (some (failed e)) h = cc
  verified_by_records-ok (some (ok rs)) h = (rs, refl)

  after_token-ok :
      (fuel : ℕ) (c : Client) (z : Z) (o : Option (Result Unit))
      → (after_token fuel c z o).1 ≡ some (ok tt)
      → (rs : List DnsRecord) × (o ≡ some (ok tt)) × ((list_records api fuel c z).1 ≡ some (ok rs))
  unfolding after_token
  after_token-ok fuel c z none h = cc
  after_token-ok fuel c z (some (failed e)) h = cc
  after_token-ok fuel c z (some (ok done)) h =
      let (rs, read) = verified_by_records-ok (list_records api fuel c z).1 h in (rs, refl, read)

  -- A token and a zone are valid only where the token is verified and the records of the zone can be
  -- read.
  pub validate_token_and_zone-ok :
      (fuel : ℕ) (c : Client) (z : Z)
      → (validate_token_and_zone fuel c z).1 ≡ some (ok tt)
      → (rs : List DnsRecord) × (verify_token fuel c z ≡ some (ok tt))
        × ((list_records api fuel c z).1 ≡ some (ok rs))
  unfolding validate_token_and_zone
  validate_token_and_zone-ok fuel c z = elim (Bool-cases (trim_space c.api_token == "")) [
    | inl bare ↦ rw bare (λ h. cc)
    | inr given ↦ rw given (elim (Bool-cases (trim_space c.zone_id == "")) [
      | inl bare ↦ rw bare (λ h. cc)
      | inr named ↦ rw named (after_token-ok fuel c z (verify_token fuel c z))
    ])
  ]
