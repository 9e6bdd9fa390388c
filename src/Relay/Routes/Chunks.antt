-- ===== src/Relay/Routes/Chunks.antt =====
-- noknowledge/server/routers/blobs.py.
use noknowledge.Base.{
  ℕ, String, Bytes, none, some, ◌==◌, eq_ℕ, eq_String, ltb, if◌then◌else◌, length,
}
use noknowledge.Base.Outcome.{ok, err, pure, raise, ◌>>=◌, ◌>>◌}
use noknowledge.Relay.Schema.{RelayError, blob_not_found}
use noknowledge.Relay.Blobs.{put_blob, get_blob}
use noknowledge.Relay.Security.{is_empty}
use noknowledge.Relay.Http.{
  Settings, Codec, Request, Route, given, query, not_found_or_full, reading, writing,
  authenticate_mailbox, mailbox_id_from_header, allow_write, charge,
}

-- `fresh` is what `secrets.token_hex` returns.
unfoldable pub chunk_id : Codec → String → Request → Route String
chunk_id codec fresh q = elim (given q.chunk_header) [
  | none ↦ pure fresh
  | some provided ↦ elim (codec.b64d provided) [
    | none ↦ raise 400
    | some raw ↦ if length raw == 16 then pure provided else raise 400
  ]
]

-- What follows the checks: a chunk that is there is not written again.
unfoldable pub store_chunk : String → String → Bytes → ℕ → Route String
unfolding query get_blob put_blob
store_chunk mailbox_id chunk body now s =
    let (answer, _) = get_blob chunk s.db in
    elim answer [
      | ok existing ↦ if existing.mailbox_id == mailbox_id then (ok chunk, s) else (err 409, s)
      | err _ ↦ (query not_found_or_full (put_blob chunk mailbox_id body now) >> pure chunk) s
    ]

unfoldable pub upload_blob : Settings → Codec → String → Request → Route String
unfolding mailbox_id_from_header authenticate_mailbox charge allow_write chunk_id store_chunk
upload_blob settings codec fresh q = do
  mailbox_id ← mailbox_id_from_header q
  _ ← authenticate_mailbox codec q mailbox_id writing
  charge (allow_write q)
  if is_empty q.body
      then raise 400
      else if ltb settings.max_chunk_bytes (length q.body)
      then raise 413
      else chunk_id codec fresh q >>= λ chunk. store_chunk mailbox_id chunk q.body q.now

abbrev pub not_found : RelayError → ℕ
not_found blob_not_found = 404
not_found _ = 500

unfoldable pub download_blob : Codec → String → Request → Route Bytes
unfolding mailbox_id_from_header authenticate_mailbox query get_blob
download_blob codec chunk q = do
  mailbox_id ← mailbox_id_from_header q
  _ ← authenticate_mailbox codec q mailbox_id reading
  row ← query not_found (get_blob chunk)
  if row.mailbox_id == mailbox_id then pure row.ciphertext else raise 404
