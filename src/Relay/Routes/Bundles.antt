-- ===== src/Relay/Routes/Bundles.antt =====
-- noknowledge/server/routers/prekeys.py. `MAX_OPKS` is that of noknowledge/crypto/prekeys.py.
use noknowledge.Base.{ℕ, String, ◌||◌, Option, none, some, ltb, if◌then◌else◌, length}
use noknowledge.Base.Int.{ℤ}
use noknowledge.Base.Outcome.{pure, raise, ◌>>◌}
use noknowledge.Relay.Schema.{RelayError, bundle_not_found}
use noknowledge.Relay.Prekeys.{publish_bundle as db_publish_bundle, fetch_bundle as db_fetch_bundle}
use noknowledge.Relay.Security.{is_empty}
use noknowledge.Relay.Http.{Codec, Request, Route, query, unexpected, allow_bundle, charge}

abbrev pub max_bundle_bytes : ℕ
max_bundle_bytes = 16384

abbrev pub max_opks : ℕ
max_opks = 100

-- What follows the limiter.
unfoldable pub publish_body : Codec → Request → Route String
unfolding query db_publish_bundle
publish_body codec q =
    if is_empty q.body || ltb max_bundle_bytes (length q.body)
    then raise 413
    else elim (codec.bundle_fields q.body) [
      | none ↦ raise 400
      | some (bundle_id, payload, opks) ↦
          if ltb max_opks (length opks)
          then raise 400
          else query unexpected (db_publish_bundle bundle_id payload opks q.now) >> pure bundle_id
    ]

unfoldable pub publish_bundle : Codec → Request → Route String
unfolding charge allow_bundle publish_body
publish_bundle codec q = do charge (allow_bundle q); publish_body codec q

abbrev pub not_found : RelayError → ℕ
not_found bundle_not_found = 404
not_found _ = 500

unfoldable pub fetch_bundle : String → Route (String × Option (ℤ × String))
unfolding query db_fetch_bundle
fetch_bundle bundle_id = query not_found (db_fetch_bundle bundle_id)
