-- ===== src/Wire/Tests.antt =====
-- Concrete calls of a pool of two relays, one of which has lost the mailbox, and of a transport.
-- A relay's state is the list of what it accepted.
use noknowledge.Base.{
  ℕ, zero, suc, String, Bytes, true, false, ◌==◌, ◌≡◌, refl, ◌⊎◌, Option, none, some, List, [], ◌∷◌,
  eq_String, if◌then◌else◌,
}
use noknowledge.Base.Outcome.{Result, ok, err}
use noknowledge.Wire.Errors.{WireError, relay_not_found, all_relays_failed, transport_error}
use noknowledge.Wire.Transport.{
  Urls, SessionError, new_transport, is_local, request, attempts, fail_closed_lem,
}
use noknowledge.Wire.Backend.{MailboxCapability, Backend}
use noknowledge.Wire.Pool.{
  Relay, put, register_mailbox, publish_bundle, put_blob, get_blob, fetch_bundle,
}
use noknowledge.Wire.Replication.{
  any_accepts, any_fails, all_called, first_answer, put-replicates, writes-replicate,
  reads-fall_back,
}

abbrev Store : Type 0
Store = Option (List Bytes)

abbrev accept : {A : Type 0} → A → Bytes → Store → Result WireError A × Store
accept a b none = (err (relay_not_found 404), none)
accept a b (some bs) = (ok a, some (b ∷ bs))

abbrev latest : Store → Result WireError Bytes × Store
latest (some (b ∷ bs)) = (ok b, some (b ∷ bs))
latest s = (err (relay_not_found 404), s)

abbrev shelf : Backend Store
shelf = record {
  create_mailbox = λ c. accept tt [];
  put = λ c b. accept 1 b;
  fetch = λ c after wait s. (ok [], s);
  ack = λ c upto s. (ok 0, s);
  delete_mailbox = λ c s. (ok tt, none);
  publish_bundle = λ id b. accept id b;
  fetch_bundle = λ id. latest;
  put_blob = λ c id b. accept id b;
  get_blob = λ c id. latest;
}

abbrev relays : List (Relay Store)
relays =
    record { base_url = "https://a"; state = none }
    ∷ record { base_url = "https://b"; state = some ((5 ∷ []) ∷ []) }
    ∷ []

abbrev capability : MailboxCapability
capability = record { mailbox_id = "m"; write_token = "w"; read_token = some "r" }

put-replicates_example :
    let call = shelf.put capability (7 ∷ []) in
    put shelf capability (7 ∷ []) relays ≡ (
      if any_accepts call relays
          then ok tt
          else if any_fails call relays
          then err all_relays_failed
          else err (relay_not_found 404),
      all_called call relays,
    )
put-replicates_example = put-replicates shelf capability (7 ∷ []) relays

writes-replicate_example :
    let one = shelf.create_mailbox capability in
    let two = shelf.publish_bundle "id" (7 ∷ []) in
    let three = shelf.put_blob capability "id" (7 ∷ []) in
    (register_mailbox shelf capability relays ≡ (
      if any_accepts one relays then ok capability else err all_relays_failed,
      all_called one relays,
    ))
    × (publish_bundle shelf "id" (7 ∷ []) relays ≡ (
      if any_accepts two relays then ok "id" else err all_relays_failed,
      all_called two relays,
    ))
    × (put_blob shelf "id" capability (7 ∷ []) relays ≡ (
      if any_accepts three relays then ok "id" else err all_relays_failed,
      all_called three relays,
    ))
writes-replicate_example = writes-replicate shelf capability "id" (7 ∷ []) relays

reads-fall_back_example :
    ((get_blob shelf capability "id" relays).0
      ≡ elim (first_answer (shelf.get_blob capability "id") relays) [
        | none ↦ err (relay_not_found 404)
        | some a ↦ ok a
      ])
    × ((fetch_bundle shelf "id" relays).0 ≡ elim (first_answer (shelf.fetch_bundle "id") relays) [
      | none ↦ err (relay_not_found 404)
      | some a ↦ ok a
    ])
reads-fall_back_example = reads-fall_back shelf capability "id" relays

abbrev urls : Urls
urls = record { hostname = λ url. "relay.example"; ends_with = λ text end. false }

-- The session counts its calls, and answers the second.
abbrev send : Option String → ℕ → Result SessionError Bytes × ℕ
send proxy zero = (err SessionError.connection_failed, 1)
send proxy (suc n) = (ok [], suc (suc n))

fail_closed_lem_example :
    (request urls (new_transport 3 (some "socks") true) send "https://relay.example" 0
      ≡ (err transport_error, 0))
    ⊎ ((proxy : String) × (some "socks" ≡ some proxy)
        × ((proxy == "") ≡ false)
        × (request urls (new_transport 3 (some "socks") true) send "https://relay.example" 0
            ≡ attempts 3 (send (some proxy)) 0))
unfolding is_local new_transport
fail_closed_lem_example =
    fail_closed_lem urls (new_transport 3 (some "socks") true) send "https://relay.example" 0 refl
      refl
