-- ===== src/Wire/Replication.antt =====
-- What the pool of relays promises.
use noknowledge.Base.{
  ℕ, suc, String, Bytes, Bool, true, false, ◌||◌, Option, none, some, List, [], ◌∷◌, map, ◌==◌,
  eq_ℕ, if◌then◌else◌, ◌≡◌, refl, ap, ◌∙◌, arith, inl, inr,
}
use noknowledge.Base.Outcome.{Result, Result-cases, ok, err}
use noknowledge.Wire.Errors.{
  Call, WireError, all_relays_failed, relay_not_found, transport_error, other_error,
  relay_http_error, relay_unauthorized, relay_quota_exceeded,
}
use noknowledge.Wire.Backend.{MailboxCapability, Backend}
use noknowledge.Wire.Pool.{
  Relay, is_ok, successes, has_error, each, until_any, on_any, put, fetch_bundle, get_blob,
  put_blob, register_mailbox, publish_bundle,
}

positive : (n : ℕ) → (suc n == 0) ≡ false
positive n = ground arith

-- The specification, relay by relay.
module _ {S A : Type 0} (call : Call S A) where
  abbrev pub any_accepts : List (Relay S) → Bool
  any_accepts [] = false
  any_accepts (relay ∷ relays) = is_ok (call relay.state).0 || any_accepts relays

  abbrev not_gone : Result WireError A → Bool
  not_gone (ok _) = false
  not_gone (err (relay_not_found _)) = false
  not_gone (err _) = true

  abbrev pub any_fails : List (Relay S) → Bool
  any_fails [] = false
  any_fails (relay ∷ relays) = not_gone (call relay.state).0 || any_fails relays

  abbrev pub all_called : List (Relay S) → List (Relay S)
  all_called relays = map {B = Relay S} (λ r. record r { state = (call r.state).1 }) relays

  each-all_called : (relays : List (Relay S)) → (each (λ _. call) relays).1 ≡ all_called relays
  unfolding each
  each-all_called [] = refl
  each-all_called (relay ∷ relays) =
      ap (λ rs. record relay { state = (call relay.state).1 } ∷ rs) (each-all_called relays)

  each-any_accepts :
      (relays : List (Relay S))
      → (successes (each (λ _. call) relays).0 == 0) ≡ (if any_accepts relays then false else true)
  unfolding each
  each-any_accepts [] = refl
  each-any_accepts (relay ∷ relays) = elim (Result-cases (call relay.state).0) [
    | inl (a, e) ↦ rw e (positive (successes (each (λ _. call) relays).0))
    | inr (x, e) ↦ rw e (each-any_accepts relays)
  ]

  has_error-not_gone :
      (url : String) (r : Result WireError A) (rs : List (String × Result WireError A))
      → has_error ((url, r) ∷ rs) ≡ (not_gone r || has_error rs)
  has_error-not_gone url (ok a) rs = refl
  has_error-not_gone url (err (relay_not_found n)) rs = refl
  has_error-not_gone url (err transport_error) rs = refl
  has_error-not_gone url (err all_relays_failed) rs = refl
  has_error-not_gone url (err other_error) rs = refl
  has_error-not_gone url (err (relay_http_error n)) rs = refl
  has_error-not_gone url (err (relay_unauthorized n)) rs = refl
  has_error-not_gone url (err (relay_quota_exceeded n)) rs = refl

  each-any_fails :
      (relays : List (Relay S)) → has_error (each (λ _. call) relays).0 ≡ any_fails relays
  unfolding each
  each-any_fails [] = refl
  each-any_fails (relay ∷ relays) =
      has_error-not_gone relay.base_url (call relay.state).0 (each (λ _. call) relays).0
      ∙ ap (λ b. not_gone (call relay.state).0 || b) (each-any_fails relays)

  -- The first answer, in the order of the relays.
  abbrev pub first_answer : List (Relay S) → Option A
  first_answer [] = none
  first_answer (relay ∷ relays) = elim (call relay.state).0 [
    | ok a ↦ some a
    | err _ ↦ first_answer relays
  ]

  pub until_any-first_answer :
      (relays : List (Relay S))
      → (until_any call relays).0
        ≡ elim (first_answer relays) [ none ↦ err (relay_not_found 404) | some a ↦ ok a ]
  unfolding until_any
  until_any-first_answer [] = refl
  until_any-first_answer (relay ∷ relays) = elim (Result-cases (call relay.state).0) [
    | inl (a, e) ↦ ground arith
    | inr (x, e) ↦ ground (arith, until_any-first_answer relays)
  ]

  pub on_any-any_accepts :
      {B : Type 0} (answer : B) (relays : List (Relay S))
      → on_any (λ _. call) answer relays
        ≡ (if any_accepts relays then ok answer else err all_relays_failed, all_called relays)
  unfolding on_any
  on_any-any_accepts answer relays = ground (arith, each-any_accepts relays, each-all_called relays)

module _ {S : Type 0} (b : Backend S) where
  -- A message is offered to every relay, whatever the others do. The call returns if any relay
  -- accepts; else it raises RelayNotFound if each relay has lost the mailbox, and AllRelaysFailed
  -- if one of them failed otherwise.
  pub put-replicates :
      (capability : MailboxCapability) (envelope : Bytes) (relays : List (Relay S))
      → let call = b.put capability envelope in
        put b capability envelope relays ≡ (
          if any_accepts call relays
              then ok tt
              else if any_fails call relays
              then err all_relays_failed
              else err (relay_not_found 404),
          all_called call relays,
        )
  unfolding put
  put-replicates capability envelope relays =
      let call = b.put capability envelope in
      ground (
        arith,
        each-any_accepts call relays,
        each-any_fails call relays,
        each-all_called call relays,
      )

  -- Registrations, prekey bundles and chunks go to every relay, and the call returns if any relay
  -- accepts; else it raises AllRelaysFailed.
  pub writes-replicate :
      (capability : MailboxCapability) (id : String) (chunk : Bytes) (relays : List (Relay S))
      → let one = b.create_mailbox capability in
        let two = b.publish_bundle id chunk in
        let three = b.put_blob capability id chunk in
        (register_mailbox b capability relays ≡ (
          if any_accepts one relays then ok capability else err all_relays_failed,
          all_called one relays,
        ))
        × (publish_bundle b id chunk relays ≡ (
          if any_accepts two relays then ok id else err all_relays_failed,
          all_called two relays,
        ))
        × (put_blob b id capability chunk relays ≡ (
          if any_accepts three relays then ok id else err all_relays_failed,
          all_called three relays,
        ))
  unfolding register_mailbox publish_bundle put_blob
  writes-replicate capability id chunk relays = (
    on_any-any_accepts (b.create_mailbox capability) capability relays,
    on_any-any_accepts (b.publish_bundle id chunk) id relays,
    on_any-any_accepts (b.put_blob capability id chunk) id relays,
  )

  -- A chunk and a prekey bundle come from the first relay that answers, and are not found only if
  -- none does.
  pub reads-fall_back :
      (capability : MailboxCapability) (id : String) (relays : List (Relay S))
      → ((get_blob b capability id relays).0
          ≡ elim (first_answer (b.get_blob capability id) relays) [
            | none ↦ err (relay_not_found 404)
            | some a ↦ ok a
          ])
        × ((fetch_bundle b id relays).0 ≡ elim (first_answer (b.fetch_bundle id) relays) [
          | none ↦ err (relay_not_found 404)
          | some a ↦ ok a
        ])
  unfolding get_blob fetch_bundle
  reads-fall_back capability id relays = (
    until_any-first_answer (b.get_blob capability id) relays,
    until_any-first_answer (b.fetch_bundle id) relays,
  )
