-- ===== src/Http/Response.antt =====
-- What a handler answers: the HTTP status and the code of `domain.APIError`, "" if there is none.
use ashan_frp.Base.{ℕ, String}

pub record Response : Type 0 where
  pub status : ℕ
  pub code : String

abbrev pub respond : ℕ → Response
respond status = record { status = status; code = "" }

abbrev pub refuse : ℕ → String → Response
refuse status code = record { status = status; code = code }
