-- ===== src/Lib.antt =====
-- noknowledge, a messenger whose relays learn nothing: a verification library.
--
-- The relay (noknowledge/server) keeps mailboxes, prekey bundles and blobs in SQLite and serves them
-- over HTTP to holders of capability tokens. A client seals its envelopes with the Double Ratchet
-- (noknowledge/crypto) and reaches a set of relays, each write going to all of them
-- (noknowledge/wire).
--
-- Base        lists, tables as the statements of SQL treat them, results, actions on a state, integers
-- Relay       noknowledge/server
--   Schema        the tables of server/db.py, errors.py, and `Database._connect`
--   Mailboxes, Messages, Prekeys, Blobs, Housekeeping    the methods of `Database`
--   Run           the operations of the database as steps, and runs of them
--   Sound         an invariant of the tables, operation by operation
--   Queue         a mailbox as a queue; reading and acknowledging
--   Later         what runs between a page and its acknowledgement
--   OneTime       one-time prekeys over a run
--   Idle          what housekeeping removes and keeps
--   Limiter       server/ratelimit.py
--   Security      server/security.py
--   Http          server/deps.py and config.py: requests, tokens, the limiters of a route
--   Routes        server/routers: mailboxes.py (Boxes), blobs.py (Chunks), prekeys.py (Bundles)
-- Crypto      noknowledge/crypto
--   Primitives    what is taken from `cryptography`, `hashlib`, `base64` and `json`, with its laws
--   Aead, Kdf, Padding    aead.py, kdf.py, padding.py
--   Prekeys, X3dh    prekeys.py, x3dh.py and what they take of kdf.py and identity.py
--   Ratchet       ratchet.py; Chain, Delivery and Forged are about receiving, Sending about sending,
--                 Handshake about the first chain of a session, Saved about `to_dict` and
--                 `from_dict`
-- Wire        noknowledge/wire
--   Transport     transport.py
--   Backend       backends/base.py: the interface of a relay
--   Client        backends/http_relay.py, which fills it
--   Pool          backends/multi_relay.py, over any relays that fill it
--   Discovery     discovery.py, and `normalize_relay_urls` of backends/multi_relay.py
--   Protocol      protocol.py: the blobs of `seal` and `unseal`, over the ratchet and the padding
-- Local       noknowledge/core/store.py: the tables of the client and the methods of `LocalStore`
-- Core        noknowledge/core
--   History       history.py: Items, Build, Merge and File are the code; Known, Steps, Moves, Keeps,
--                 Outcome and Again follow one key and one id through a merge, Budget the chunks
--   Channel       device_channel.py
--   Sync          sync.py: its state here, the handling of records in Entries and Records
--   Attachments   attachments.py
--   Card          card.py
--   Arrival       client.py: the first message of a session, and its one-time prekey
--   Inbox         client.py: opened envelopes, the round of `sync`, the outbox
--   Dicts         Python's dicts with texts as keys
--
-- State and operations. A method of `Database` is a function of its name from the tables to a result
-- and the tables after it; a route is the same on the tables and the limiters, with the parts of the
-- request that it reads. Methods of `Ratchet` act on `RatchetState`. A call on a relay acts on a state
-- that is the relay's own, so the threads of the pool cannot disturb one another. An exception is an
-- error value, and what was written before it stays written unless the code rolls back.
--
-- Bounds and fuel. Numbers are natural numbers, as Python's integers have no bound; integers that a
-- client sends may be negative. Loops are structural: over rows, over events, over the attempts that
-- are left; the rounds of `prune_local_blobs` are at most the rows of its table, since each takes one;
-- and `_skip_keys` runs over the difference of its two counters.
--
-- Parameters. SHA-256, HMAC, HKDF, ChaCha20-Poly1305, X25519, base64, JSON, the session of `requests`,
-- `urlparse` and random bytes are arguments. Where a result needs a law of them, the law is in
-- `Crypto.Primitives.Laws` or a hypothesis.
--
-- The client's state of a store is a record of the dicts that `get_state` and `set_state` keep under its
-- keys. A JSON object is a record whose fields are `none` where they are missing or null; a field of
-- another JSON type than the code expects is outside the model.
--
-- Not modelled: the sessions with peers as client.py stores and finds them (the interface of Core.Inbox
-- stands for what they write), the lists of devices (devices.py), the identity files, the user
-- interface (gui), the start of the relay's application, FastAPI's own handling of requests. A route is
-- one step: what another request does between two database calls of one route is not seen, but for the
-- long poll. The text that is the key of a skipped message key is the pair of its parts.
pub mod Base
pub mod Relay
pub mod Crypto
pub mod Wire
pub mod Local
pub mod Core
