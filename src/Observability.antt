-- ===== src/Observability.antt =====
-- frp-backend/internal/observability/logger.go: what is kept out of the log, and the size of its file.
pub mod Redacted
pub mod Rotation
pub mod Cleanup
use ashan_frp.Base.{ℕ, ◌-◌, leb, String, ◌<>◌, Bool, true, false, not, ◌&&◌, ◌||◌}
use ashan_frp.Base.{◌==◌, string_eq, if◌then◌else◌}
use ashan_frp.Base.Text.{to_lower, contains, trim_space, bytes, drop_bytes}

-- What `redactAttr` makes of an attribute, by its key: the time is renamed, a secret is replaced.
pub data Redaction : Type 0 where
  renamed : Redaction
  redacted : Redaction
  kept : Redaction

-- One of the terms of `redactAttr`.
unfoldable pub names_secret : String → Bool
names_secret key =
    contains key "password"
    || contains key "authorization"
    || contains key "cookie"
    || contains key "encrypted"
    || contains key "secret"

unfoldable pub names_token : String → Bool
names_token key = contains key "token" && not (key == "token_mask")

unfoldable pub names_credential : String → Bool
names_credential key =
    contains key "credential" && not (key == "credential_ref") && not (key == "credential_revision")

-- `redactAttr`; `slog.TimeKey` is "time".
unfoldable pub redact_attr : String → Redaction
unfolding names_secret names_token names_credential
redact_attr attr =
    let key = to_lower attr in
    if attr == "time"
    then renamed
    else if names_secret key
    then redacted
    else if names_token key
    then redacted
    else if names_credential key
    then redacted
    else kept

-- `TokenMask`: the last four bytes; a character that the cut would split is left out.
unfoldable pub token_mask : String → String
token_mask secret =
    let s = trim_space secret in
    if leb (bytes s) 4 then "****" else "****" <> drop_bytes (bytes s - 4) s
