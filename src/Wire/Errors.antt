-- ===== src/Wire/Errors.antt =====
-- noknowledge/wire/errors.py, without the texts. `other_error` stands for any other exception.
use noknowledge.Base.{ℕ}
use noknowledge.Base.Outcome.{Action}

pub data WireError : Type 0 where
  transport_error all_relays_failed other_error : WireError
  relay_http_error relay_not_found relay_unauthorized relay_quota_exceeded : ℕ → WireError

-- A call on the state of what answers it.
abbrev pub Call : Type 0 → Type 0 → Type 0
Call S = Action S WireError
