-- ===== src/Cloudflare/Answer.antt =====
-- frp-backend/internal/integration/cloudflare/client.go: how the client reads an answer. The
-- transport and the JSON decoder are not part of the program: what they give is an `HttpAnswer`.
use ashan_frp.Base.{
  ℕ, ltb, leb, String, ◌<>◌, Bool, nat_eq, ◌&&◌, ◌||◌, Option, none, some, List, [], ◌∷◌,
}
use ashan_frp.Base.{◌==◌, string_eq, if◌then◌else◌}
use ashan_frp.Base.Result.{Result, ok, failed}
use ashan_frp.Base.Text.{trim_space, show_nat}

-- The body of an answer once it is decoded, with the messages of its errors.
pub record Envelope (A : Type 0) : Type 0 where
  pub success : Bool
  pub errors : List String
  pub messages : List String
  pub result : Result A

-- A request that is not sent or whose body is not read has an error; `decoded` is the body.
pub data HttpAnswer (A : Type 0) : Type 0 where
  unsent : String → HttpAnswer A
  unread : String → HttpAnswer A
  answered : ℕ → Result (Envelope A) → HttpAnswer A

abbrev pub token_invalid : String
token_invalid = "CLOUDFLARE_TOKEN_INVALID: Cloudflare credential is invalid or revoked"

-- `firstNonEmpty`.
unfoldable pub first_non_empty : List String → String
first_non_empty [] = ""
first_non_empty (v ∷ vs) =
    let rest = first_non_empty vs in if trim_space v == "" then rest else trim_space v

join_with : String → String → String
join_with m rest = if rest == "" then m else m <> ("; " <> rest)

-- `joinAPIErrorMessages`: the messages that are not empty, joined.
unfoldable pub join_api_error_messages : List String → String
unfolding join_with
join_api_error_messages [] = ""
join_api_error_messages (m ∷ ms) =
    let rest = join_api_error_messages ms in
    if trim_space m == "" then rest else join_with (trim_space m) rest

-- `cloudflareFailureMessage`.
unfoldable pub cloudflare_failure_message : List String → List String → String
unfolding first_non_empty join_api_error_messages
cloudflare_failure_message errors messages = first_non_empty (
    join_api_error_messages errors
    ∷ join_api_error_messages messages
    ∷ "Cloudflare did not accept the request"
    ∷ [])

-- The error of `readBody` for a status.
unfoldable pub status_error : ℕ → String → Option String
unfolding show_nat
status_error status op =
    if leb 200 status && ltb status 300
    then none
    else if (op == "cloudflare verify token" && (status == 400 || status == 401)) || status == 401
    then some token_invalid
    else some (op <> (" failed: http " <> show_nat status))

unfoldable pub read_envelope : {A : Type 0} → String → Result (Envelope A) → Result A
unfolding cloudflare_failure_message
read_envelope op (failed e) = failed (op <> (" parse: " <> e))
read_envelope op (ok envelope) =
    if envelope.success
    then elim envelope.result [ ok a ↦ ok a | failed e ↦ failed (op <> (" result parse: " <> e)) ]
    else failed
        (op <> (" failed: " <> cloudflare_failure_message envelope.errors envelope.messages))

unfoldable pub read_status : {A : Type 0} → Option String → String → Result (Envelope A) → Result A
unfolding read_envelope
read_status (some e) op decoded = failed e
read_status none op decoded = read_envelope op decoded

-- What a call of the API comes to: `readBody` and the checks that follow it.
unfoldable pub read_answer : {A : Type 0} → String → HttpAnswer A → Result A
unfolding read_status status_error
read_answer op (unsent e) = failed e
read_answer op (unread e) = failed (op <> (" read: " <> e))
read_answer op (answered status decoded) = read_status (status_error status op) op decoded
