-- ===== src/Wire/Pool.antt =====
-- noknowledge/wire/backends/multi_relay.py: operations on several relays. Each relay has a state of
-- its own, so it makes no difference in which order the threads of the pool reach them; the
-- results are read in the order of the relays.
use noknowledge.Base.{
  ℕ, suc, String, Bytes, Bool, true, false, Option, none, some, List, [], ◌∷◌, ◌++◌, map, ◌==◌,
  eq_ℕ, eq_String, if◌then◌else◌,
}
use noknowledge.Base.Outcome.{Result, ok, err}
use noknowledge.Wire.Errors.{Call, WireError, all_relays_failed, relay_not_found}
use noknowledge.Wire.Backend.{MailboxCapability, Backend}

pub record Relay (S : Type 0) : Type 0 where
  pub base_url : String
  pub state : S

pub record FetchedMessage : Type 0 where
  pub relay : String
  pub seq : ℕ
  pub blob : Bytes

abbrev pub is_ok : {A : Type 0} → Result WireError A → Bool
is_ok (ok _) = true
is_ok (err _) = false

-- `succeeded`
abbrev pub successes : {A : Type 0} → List (String × Result WireError A) → ℕ
successes [] = 0
successes ((_, ok _) ∷ rs) = suc (successes rs)
successes ((_, err _) ∷ rs) = successes rs

-- `last_error is not None`, where RelayNotFound is passed over.
abbrev pub has_error : {A : Type 0} → List (String × Result WireError A) → Bool
has_error [] = false
has_error ((_, ok _) ∷ rs) = has_error rs
has_error ((_, err (relay_not_found _)) ∷ rs) = has_error rs
has_error ((_, err _) ∷ rs) = true

-- The rows of the relays that answered.
unfoldable pub collected : List (String × Result WireError (List (ℕ × Bytes))) → List FetchedMessage
collected [] = []
collected ((url, ok rows) ∷ rs) =
    map (λ row. record { relay = url; seq = row.0; blob = row.1 }) rows ++ collected rs
collected ((url, err _) ∷ rs) = collected rs

-- `cursors.get(url)`
abbrev pub cursor : List (String × ℕ) → String → Option ℕ
cursor [] url = none
cursor ((key, seq) ∷ cursors) url = if key == url then some seq else cursor cursors url

abbrev pub or_zero : Option ℕ → ℕ
or_zero none = 0
or_zero (some n) = n

module _ {S : Type 0} where
  -- One call of each relay, and the results under their URLs.
  unfoldable pub each :
      {A : Type 0}
      → (String → Call S A)
      → List (Relay S)
      → List (String × Result WireError A) × List (Relay S)
  each call [] = ([], [])
  each call (relay ∷ relays) =
      let (r, s) = call relay.base_url relay.state in
      let (rs, rest) = each call relays in
      ((relay.base_url, r) ∷ rs, record relay { state = s } ∷ rest)

  -- The calls that succeed if any relay does.
  unfoldable pub on_any :
      {A B : Type 0}
      → (String → Call S A)
      → B
      → List (Relay S)
      → Result WireError B × List (Relay S)
  unfolding each
  on_any call answer relays =
      let (rs, relays') = each call relays in
      (if successes rs == 0 then err all_relays_failed else ok answer, relays')

  -- The calls that ask one relay after the other, until one answers.
  unfoldable pub until_any :
      {A : Type 0} → Call S A → List (Relay S) → Result WireError A × List (Relay S)
  until_any call [] = (err (relay_not_found 404), [])
  until_any call (relay ∷ relays) =
      let (r, s) = call relay.state in
      let (later, rest) = until_any call relays in
      elim r [
        | ok answer ↦ (ok answer, record relay { state = s } ∷ relays)
        | err _ ↦ (later, record relay { state = s } ∷ rest)
      ]

  module _ (b : Backend S) where
    unfoldable pub register_mailbox :
        MailboxCapability → List (Relay S) → Result WireError MailboxCapability × List (Relay S)
    unfolding on_any
    register_mailbox capability = on_any (λ _. b.create_mailbox capability) capability

    unfoldable pub put :
        MailboxCapability → Bytes → List (Relay S) → Result WireError Unit × List (Relay S)
    unfolding each
    put capability envelope relays =
        let (rs, relays') = each (λ _. b.put capability envelope) relays in
        (
          if successes rs == 0
              then (if has_error rs then err all_relays_failed else err (relay_not_found 404))
              else ok tt,
          relays',
        )

    unfoldable pub fetch :
        MailboxCapability
        → List (String × ℕ)
        → ℕ
        → List (Relay S)
        → List FetchedMessage × List (Relay S)
    unfolding each collected
    fetch capability cursors wait relays =
        let (rs, relays') =
          each (λ url. b.fetch capability (or_zero (cursor cursors url)) wait) relays in
        (collected rs, relays')

    -- A relay without a cursor is not asked.
    unfoldable pub ack : MailboxCapability → List (String × ℕ) → List (Relay S) → List (Relay S)
    unfolding each
    ack capability cursors relays =
        (each {A = ℕ}
          (λ url s. elim (cursor cursors url) [
            | none ↦ (ok 0, s)
            | some upto ↦ b.ack capability upto s
          ])
          relays).1

    unfoldable pub delete_mailbox : MailboxCapability → List (Relay S) → List (Relay S)
    unfolding each
    delete_mailbox capability relays = (each (λ _. b.delete_mailbox capability) relays).1

    unfoldable pub publish_bundle :
        String → Bytes → List (Relay S) → Result WireError String × List (Relay S)
    unfolding on_any
    publish_bundle bundle_id bundle = on_any (λ _. b.publish_bundle bundle_id bundle) bundle_id

    unfoldable pub fetch_bundle : String → List (Relay S) → Result WireError Bytes × List (Relay S)
    unfolding until_any
    fetch_bundle bundle_id = until_any (b.fetch_bundle bundle_id)

    -- `chunk_id` is what `os.urandom` gives, encoded.
    unfoldable pub put_blob :
        String
        → MailboxCapability
        → Bytes
        → List (Relay S)
        → Result WireError String × List (Relay S)
    unfolding on_any
    put_blob chunk_id capability chunk = on_any (λ _. b.put_blob capability chunk_id chunk) chunk_id

    unfoldable pub get_blob :
        MailboxCapability → String → List (Relay S) → Result WireError Bytes × List (Relay S)
    unfolding until_any
    get_blob capability chunk_id = until_any (b.get_blob capability chunk_id)
