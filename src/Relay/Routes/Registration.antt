-- ===== src/Relay/Routes/Registration.antt =====
-- Registering a mailbox with a capability that the client chose, and reading back what was stored.
use noknowledge.Base.{
  ℕ, String, Bytes, Bool, true, false, ◌&&◌, eq_String, eq_ℕ, eq_Bytes, eq_self, ◌≡◌, inl, inr,
  none, some, [], ◌∷◌, ◌++◌, arith, Bool-cases, Option-cases, first, first-append,
}
use noknowledge.Base.Outcome.{ok, err}
use noknowledge.Relay.Schema.{Mailbox, connect}
use noknowledge.Relay.Mailboxes.{
  has_id, find_mailbox, get_mailbox as db_get_mailbox, create_mailbox as db_create_mailbox,
}
use noknowledge.Relay.Security.{verify_token, is_empty}
use noknowledge.Relay.Http.{Settings, Codec, Server, query}
use noknowledge.Relay.Routes.Boxes.{capability_json, register_mailbox, new_mailbox}

-- The tokens are those whose digests the mailbox stores.
abbrev pub same_tokens : Codec → Bytes → Bytes → Mailbox → Bool
same_tokens codec read_token write_token m =
    verify_token codec.sha256 read_token m.read_token_hash
    && verify_token codec.sha256 write_token m.write_token_hash

digest_self :
    (sha256 : Bytes → Bytes) (token : Bytes)
    → ((t : Bytes) → is_empty (sha256 t) ≡ false)
    → is_empty token ≡ false
    → verify_token sha256 token (sha256 token) ≡ true
unfolding verify_token
digest_self sha256 token h k = rw (k, h token, eq_self (sha256 token))

module _ (settings : Settings) (codec : Codec) (id : String) (read write : Bytes) where
  found_again :
      (now : ℕ) (s : Server) (m : Mailbox)
      → find_mailbox id s.db ≡ some m
      → same_tokens codec read write m ≡ true
      → register_mailbox settings codec now id read write s
        ≡ (ok (capability_json codec id read write), s)
  unfolding register_mailbox query db_get_mailbox connect
  found_again now s m e same = ground arith

  refused :
      (now : ℕ) (s : Server) (m : Mailbox)
      → find_mailbox id s.db ≡ some m
      → same_tokens codec read write m ≡ false
      → register_mailbox settings codec now id read write s ≡ (err 409, s)
  unfolding register_mailbox query db_get_mailbox connect
  refused now s m e other = ground arith

  abbrev new_row : ℕ → Mailbox
  new_row now = record {
    id = id;
    read_token_hash = codec.sha256 read;
    write_token_hash = codec.sha256 write;
    created_at = now;
    last_seen = now;
    max_messages = settings.max_messages_per_mailbox;
    max_bytes = settings.max_bytes_per_mailbox;
    next_seq = 1;
  }

  abbrev with_row : ℕ → Server → Server
  with_row now s = record s { db = record s.db { mailboxes = s.db.mailboxes ++ new_row now ∷ [] } }

  added :
      (now : ℕ) (s : Server)
      → find_mailbox id s.db ≡ none
      → new_mailbox settings codec now id read write s
        ≡ (ok (capability_json codec id read write), with_row now s)
  unfolding query new_mailbox db_create_mailbox connect
  added now s e = ground arith

  registered_new :
      (now : ℕ) (s : Server)
      → find_mailbox id s.db ≡ none
      → register_mailbox settings codec now id read write s
        ≡ (ok (capability_json codec id read write), with_row now s)
  unfolding register_mailbox query db_get_mailbox connect
  registered_new now s e = rw e (added now s e)

  row_found :
      (now : ℕ) (s : Server)
      → find_mailbox id s.db ≡ none
      → find_mailbox id (with_row now s).db ≡ some (new_row now)
  unfolding first
  row_found now s e = rw (first-append (has_id id) s.db.mailboxes (new_row now ∷ []), e, eq_self id)

  -- Registering again is registering once, whatever the first answer was.
  pub registering_twice :
      (now later : ℕ) (s : Server)
      → ((t : Bytes) → is_empty (codec.sha256 t) ≡ false)
      → is_empty read ≡ false
      → is_empty write ≡ false
      → register_mailbox settings codec later id read write
          (register_mailbox settings codec now id read write s).1
        ≡ register_mailbox settings codec now id read write s
  registering_twice now later s h hr hw = elim (Option-cases (find_mailbox id s.db)) [
    | inl e ↦ rw (registered_new now s e) (
        found_again later (with_row now s) (new_row now) (row_found now s e)
          (rw (digest_self codec.sha256 read h hr, digest_self codec.sha256 write h hw)))
    | inr (m, e) ↦ elim (Bool-cases (same_tokens codec read write m)) [
      | inl same ↦ rw (found_again now s m e same) (found_again later s m e same)
      | inr other ↦ rw (refused now s m e other) (refused later s m e other)
    ]
  ]
