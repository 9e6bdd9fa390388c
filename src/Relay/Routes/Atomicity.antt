-- ===== src/Relay/Routes/Atomicity.antt =====
-- A route that raises, for whatever reason, has not changed the database.
use noknowledge.Base.{
  ℕ, String, Bytes, ◌||◌, eq_String, eq_ℕ, ◌≡◌, refl, ◌∙◌, ◌⊎◌, inl, inr, Option, List, arith,
  Bool-cases, Option-cases, length, ltb,
}
use noknowledge.Base.Int.{ℤ}
use noknowledge.Base.Outcome.{Result-cases, ok, ◌>>=◌, ◌>>◌, pure, raise}
use noknowledge.Relay.Schema.{Database, RelayError, Transaction, connect}
use noknowledge.Relay.Mailboxes.{find_mailbox, get_mailbox as db_get_mailbox}
use noknowledge.Relay.Messages.{put_message as db_put_message, ack_messages as db_ack_messages}
use noknowledge.Relay.Prekeys.{add_all, put_payload, publish_bundle as db_publish_bundle}
use noknowledge.Relay.Security.{verify_token, is_empty}
use noknowledge.Relay.Http.{
  unexpected, not_found_or_full, Settings, Codec, Request, Server, Route, Capability, reading,
  writing, query, token_from_header, header_of, hash_of, authenticate_mailbox, charge, allow_create,
  allow_write, allow_bundle,
}
use noknowledge.Relay.Sound.Put.{refused, stored, put_message-Stored}
use noknowledge.Relay.Routes.Boxes.{put_message, ack_messages, write_body, ack_body}
use noknowledge.Relay.Routes.Bundles.{max_bundle_bytes, max_opks, publish_body, publish_bundle}

-- The route answers, or leaves the database as it is.
abbrev pub Kept : {A : Type 0} → Route A → Server → Type 0
Kept {A} r s = ((a : A) × ((r s).0 ≡ ok a)) ⊎ ((r s).1.db ≡ s.db)

abbrev Atomic : {A : Type 0} → Route A → Type 0
Atomic r = (s : Server) → Kept r s

abbrev ReadOnly : {A : Type 0} → Route A → Type 0
ReadOnly r = (s : Server) → (r s).1.db ≡ s.db

pure-Atomic : {A : Type 0} (a : A) → Atomic (pure a)
pure-Atomic a s = inr refl

raise-Atomic : {A : Type 0} (e : ℕ) → Atomic {A = A} (raise e)
raise-Atomic e s = inr refl

read-Atomic : {A : Type 0} (r : Route A) → ReadOnly r → Atomic r
read-Atomic r h s = inr (h s)

bind-Atomic :
    {A B : Type 0} (m : Route A) (n : A → Route B)
    → ReadOnly m
    → ((a : A) → Atomic (n a))
    → Atomic (m >>= n)
bind-Atomic m n hm hn s = elim (Result-cases (m s).0) [
  | inl (a, e) ↦ rw e (elim (hn a (m s).1) [ inl h ↦ inl h | inr h ↦ inr (h ∙ hm s) ])
  | inr (e, h) ↦ rw h (inr (hm s))
]

bind-ReadOnly :
    {A B : Type 0} (m : Route A) (n : A → Route B)
    → ReadOnly m
    → ((a : A) → ReadOnly (n a))
    → ReadOnly (m >>= n)
bind-ReadOnly m n hm hn s = elim (Result-cases (m s).0) [
  | inl (a, e) ↦ rw (e, hn a (m s).1, hm s)
  | inr (e, h) ↦ rw (h, hm s)
]

-- A transaction that raises leaves the tables as they are.
abbrev RollsBack : {A : Type 0} → Transaction A → Type 0
RollsBack {A} m = (db : Database) → ((a : A) × ((m db).0 ≡ ok a)) ⊎ ((m db).1 ≡ db)

query-Atomic :
    {A : Type 0} (status : RelayError → ℕ) (m : Transaction A)
    → RollsBack m
    → Atomic (query status m)
unfolding query
query-Atomic status m h s = elim (Result-cases (m s.db).0) [
  | inl (a, e) ↦ inl (a, ground arith)
  | inr (x, e) ↦ elim (h s.db) [ inl (a, k) ↦ inl (a, ground arith) | inr k ↦ inr (ground arith) ]
]

put-RollsBack : (id : String) (ct : Bytes) (now : ℕ) → RollsBack (db_put_message id ct now)
put-RollsBack id ct now db = elim (put_message-Stored id ct now db) [
  | refused x e ↦ inr (ground arith)
  | stored m found few fits e ↦ inl (m.next_seq, ground arith)
]

ack-RollsBack : (id : String) (upto : ℤ) → RollsBack (db_ack_messages id upto)
unfolding db_ack_messages connect
ack-RollsBack id upto db = inl (_, refl)

publish-RollsBack :
    (id payload : String) (opks : List (Option (ℤ × String))) (now : ℕ)
    → RollsBack (db_publish_bundle id payload opks now)
unfolding db_publish_bundle connect
publish-RollsBack id payload opks now db =
    elim (Result-cases (add_all id opks (put_payload id payload now db)).0) [
      | inl (a, e) ↦ inl (a, ground arith)
      | inr (x, e) ↦ inr (ground arith)
    ]

charge-ReadOnly :
    (q : Request)
    → ReadOnly (charge (allow_write q))
      × ReadOnly (charge (allow_create q))
      × ReadOnly (charge (allow_bundle q))
unfolding charge allow_write allow_create allow_bundle
charge-ReadOnly q = ground arith

authenticate-ReadOnly :
    (codec : Codec) (q : Request) (id : String) (c : Capability)
    → ReadOnly (authenticate_mailbox codec q id c)
unfolding authenticate_mailbox query db_get_mailbox connect
authenticate-ReadOnly codec q id c s =
    elim (Option-cases (token_from_header codec (header_of c q))) [
      | inl e ↦ ground arith
      | inr (token, e) ↦ elim (Option-cases (find_mailbox id s.db)) [
        | inl e2 ↦ ground arith
        | inr (m, e2) ↦ elim (Bool-cases (verify_token codec.sha256 token (hash_of c m))) [
          | inl e3 ↦ ground arith
          | inr e3 ↦ ground arith
        ]
      ]
    ]

write_body-Atomic :
    (settings : Settings) (id : String) (q : Request) → Atomic (write_body settings id q)
unfolding write_body
write_body-Atomic settings id q s = elim (Bool-cases (is_empty q.body)) [
  | inl e ↦ inr (ground arith)
  | inr e ↦ elim (Bool-cases (ltb settings.max_blob_bytes (length q.body))) [
    | inl big ↦ inr (ground arith)
    | inr fits ↦
        rw (e, fits)
          (query-Atomic not_found_or_full (db_put_message id q.body q.now)
            (put-RollsBack id q.body q.now) s)
  ]
]

ack_body-Atomic : (codec : Codec) (id : String) (q : Request) → Atomic (ack_body codec id q)
unfolding ack_body
ack_body-Atomic codec id q s = elim (Option-cases (codec.upto_seq q.body)) [
  | inl e ↦ inr (ground arith)
  | inr (upto, e) ↦
      elim (query-Atomic unexpected (db_ack_messages id upto) (ack-RollsBack id upto) s) [
        | inl (n, k) ↦ inl (n, ground arith)
        | inr k ↦ inr (ground arith)
      ]
]

publish_call :
    (id payload : String) (opks : List (Option (ℤ × String))) (now : ℕ)
    → Atomic (query unexpected (db_publish_bundle id payload opks now) >> pure id)
publish_call id payload opks now s =
    elim (query-Atomic unexpected (db_publish_bundle id payload opks now)
      (publish-RollsBack id payload opks now) s) [
        | inl (n, k) ↦ inl (id, ground arith)
        | inr k ↦
            elim (Result-cases (query unexpected (db_publish_bundle id payload opks now) s).0) [
              | inl (n, e) ↦ inl (id, ground arith)
              | inr (x, e) ↦ inr (ground arith)
            ]
      ]

publish_body-Atomic : (codec : Codec) (q : Request) → Atomic (publish_body codec q)
unfolding publish_body
publish_body-Atomic codec q s =
    elim (Bool-cases (is_empty q.body || ltb max_bundle_bytes (length q.body))) [
      | inl e ↦ inr (ground arith)
      | inr e ↦ elim (Option-cases (codec.bundle_fields q.body)) [
        | inl k ↦ inr (ground arith)
        | inr ((id, payload, opks), k) ↦ elim (Bool-cases (ltb max_opks (length opks))) [
          | inl many ↦ inr (ground arith)
          | inr few ↦ elim (publish_call id payload opks q.now s) [
            | inl (n, h) ↦ inl (n, ground arith)
            | inr h ↦ inr (ground arith)
          ]
        ]
      ]
    ]

module _ (settings : Settings) (codec : Codec) (id : String) (q : Request) where
  put_message-Atomic : Atomic (put_message settings codec id q)
  unfolding put_message
  put_message-Atomic =
      bind-Atomic (authenticate_mailbox codec q id writing)
        (λ _. charge (allow_write q) >> write_body settings id q)
        (authenticate-ReadOnly codec q id writing)
        (λ _.
          bind-Atomic (charge (allow_write q)) (λ _. write_body settings id q) (charge-ReadOnly q).0
            (λ _. write_body-Atomic settings id q))

  ack_messages-Atomic : Atomic (ack_messages codec id q)
  unfolding ack_messages
  ack_messages-Atomic =
      bind-Atomic (authenticate_mailbox codec q id reading) (λ _. ack_body codec id q)
        (authenticate-ReadOnly codec q id reading) (λ _. ack_body-Atomic codec id q)

  publish_bundle-Atomic : Atomic (publish_bundle codec q)
  unfolding publish_bundle
  publish_bundle-Atomic =
      bind-Atomic (charge (allow_bundle q)) (λ _. publish_body codec q) (charge-ReadOnly q).2
        (λ _. publish_body-Atomic codec q)

  -- A request to write, to acknowledge or to publish that gets no answer, for whatever reason, has
  -- left the database as it was: no part of a bundle stays, and nothing of a message.
  pub writes-Kept :
      (s : Server)
      → Kept (put_message settings codec id q) s
        × Kept (ack_messages codec id q) s
        × Kept (publish_bundle codec q) s
  writes-Kept s = (put_message-Atomic s, ack_messages-Atomic s, publish_bundle-Atomic s)
