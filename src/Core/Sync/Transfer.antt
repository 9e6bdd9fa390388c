-- ===== src/Core/Sync/Transfer.antt =====
-- noknowledge/core/sync.py: a back-fill from its OFFER to its COMPLETE, as one device sends it and
-- the other receives it.
use noknowledge.Base.{
  ℕ, suc, ◌++◌, refl, ◌+◌, String, Bytes, false, Option, none, some, List, [], ◌∷◌, ◌==◌, eq_String,
  eq_ℕ, length, ◌≡◌, sym, ap, ◌∙◌, arith, inl, inr, Option-cases, eq_law, eq_self, map,
}
use noknowledge.Base.Outcome.{ok, err, Result-cases}
use noknowledge.Base.Slices.{to_bytes4}
use noknowledge.Core.Dicts.{get_key, get_key-set_key}
use noknowledge.Core.History.Items.{or_text}
use noknowledge.Core.Channel.{DevicePrimitives, chain_start, chain_add, hexdigest}
use noknowledge.Core.Sync.{Incoming, Payload, Device}
use noknowledge.Core.Sync.Records.{next_entry, apply_item, merge_item}
use noknowledge.Core.Sync.Entries.{
  Reply, finished, incomplete, number, entry_of, handle_offer, handle_complete, set_incoming,
}

entry_of-set_incoming :
    (device_id transfer : String) (entry : Incoming) (s : Device)
    → entry_of device_id transfer (set_incoming device_id entry s) ≡ entry
unfolding entry_of
entry_of-set_incoming device_id transfer entry s =
    ground (arith, get_key-set_key device_id entry s.sync.incoming)

-- The digest of `send_history` over its items, from a number on.
unfoldable pub sent_chain : DevicePrimitives → List Bytes → ℕ → Bytes → Bytes
sent_chain d [] seq digest = digest
sent_chain d (raw ∷ raws) seq digest = sent_chain d raws (suc seq) (chain_add d raw seq digest)

module _ (decode : Bytes → Option Bytes) (digest : Option String → String) (d : DevicePrimitives)
    (identity_id : String) (random_id : ℕ → String) where
  -- The items in order, from a number on; `none` if one of them is an error.
  unfoldable pub receive_items :
      ℕ → String → String → List (Bytes × Payload) → ℕ → Device → Option Device
  receive_items now device_id transfer [] seq s = some s
  receive_items now device_id transfer ((raw, item) ∷ items) seq s =
      let (r, s') =
        apply_item decode digest d identity_id random_id now device_id transfer raw item seq s in
      elim r [ err e ↦ none | ok _ ↦ receive_items now device_id transfer items (suc seq) s' ]

module _ (decode : Bytes → Option Bytes) (digest : Option String → String) (d : DevicePrimitives)
    (identity_id : String) (random_id : ℕ → String)
    (hex_back : (b : Bytes) → d.from_hex (d.hex (d.sha256 b)) ≡ d.sha256 b)
    (hex_some : (b : Bytes) → (d.hex (d.sha256 b) == "") ≡ false) where
  abbrev Digest : Bytes → Type 0
  Digest b = (x : Bytes) × (b ≡ d.sha256 x)

  added : (raw : Bytes) (seq : ℕ) (b : Bytes) → Digest (chain_add d raw seq b)
  unfolding chain_add
  added raw seq b = (b ++ to_bytes4 seq ++ raw, refl)

  started : (transfer : String) → Digest (chain_start d transfer "")
  unfolding chain_start
  started transfer = (d.utf8 transfer, refl)

  sent : (raws : List Bytes) (seq : ℕ) (b : Bytes) → Digest b → Digest (sent_chain d raws seq b)
  unfolding sent_chain
  sent [] seq b h = h
  sent (raw ∷ raws) seq b h = sent raws (suc seq) (chain_add d raw seq b) (added raw seq b)

  hex_digest_some : (b : Bytes) → Digest b → (hexdigest d b == "") ≡ false
  unfolding hexdigest
  hex_digest_some b (x, e) = ap (λ y. d.hex y == "") e ∙ hex_some x

  resumes : (transfer : String) (b : Bytes) → Digest b → chain_start d transfer (hexdigest d b) ≡ b
  unfolding chain_start hexdigest
  resumes transfer b (x, e) =
      ground (arith, ap d.hex e, hex_some x, ap (λ y. d.from_hex (d.hex y)) e, hex_back x, e)

  item_entry :
      (now : ℕ) (device_id transfer : String) (raw : Bytes) (item : Payload) (seq : ℕ) (s : Device)
      (reply : Reply)
      → (apply_item decode digest d identity_id random_id now device_id transfer raw item seq s).0
        ≡ ok reply
      → entry_of device_id transfer
          (apply_item decode digest d identity_id random_id now device_id transfer raw item seq s).1
        ≡ next_entry decode digest d identity_id random_id transfer raw seq
            (entry_of device_id transfer s)
  unfolding apply_item
  item_entry now device_id transfer raw item seq s reply h =
      let merged = merge_item decode digest d identity_id random_id now item s in
      elim (Result-cases merged.0) [
        | inl (a, e) ↦ ground (
          arith,
          e,
          entry_of-set_incoming device_id transfer
              (next_entry decode digest d identity_id random_id transfer raw seq
                (entry_of device_id transfer s))
              merged.1,
        )
        | inr (a, e) ↦ ground (arith, e, h)
      ]

  item_progress :
      (now : ℕ) (device_id transfer : String) (raw : Bytes) (item : Payload) (seq : ℕ) (s : Device)
      (reply : Reply)
      → (apply_item decode digest d identity_id random_id now device_id transfer raw item seq s).0
        ≡ ok reply
      → ((entry_of device_id transfer
            (apply_item decode digest d identity_id random_id now device_id transfer raw item seq
              s).1).received
          ≡ suc (entry_of device_id transfer s).received)
        × ((entry_of device_id transfer
              (apply_item decode digest d identity_id random_id now device_id transfer raw item seq
                s).1).chain
            ≡ hexdigest d (
                chain_add d raw seq (chain_start d transfer (entry_of device_id transfer s).chain)))
  unfolding next_entry
  item_progress now device_id transfer raw item seq s reply h =
      let entry = item_entry now device_id transfer raw item seq s reply h in
      (ap (λ (e : Incoming). e.received) entry, ap (λ (e : Incoming). e.chain) entry)

  -- The items that were received are counted, and their digest is where the sender's is.
  received_entry :
      (now : ℕ) (device_id transfer : String) (items : List (Bytes × Payload)) (seq : ℕ)
      (s s' : Device) (b : Bytes)
      → Digest b
      → (entry_of device_id transfer s).chain ≡ hexdigest d b
      → receive_items decode digest d identity_id random_id now device_id transfer items seq s
        ≡ some s'
      → ((entry_of device_id transfer s').received
          ≡ (entry_of device_id transfer s).received + length items)
        × ((entry_of device_id transfer s').chain
            ≡ hexdigest d (sent_chain d (map (λ i. i.0) items) seq b))
  unfolding receive_items sent_chain
  received_entry now device_id transfer [] seq s s' b x c h = ground (arith, h, c)
  received_entry now device_id transfer ((raw, item) ∷ items) seq s s' b x c h =
      let applied =
        apply_item decode digest d identity_id random_id now device_id transfer raw item seq s in
      elim (Result-cases applied.0) [
        | inr (a, e) ↦ ground (arith, e, h)
        | inl (reply, e) ↦
            let step = item_progress now device_id transfer raw item seq s reply e in
            let rest =
              received_entry now device_id transfer items (suc seq) applied.1 s'
                (chain_add d raw seq b) (added raw seq b)
                (step.1
                  ∙ ap (λ x. hexdigest d (chain_add d raw seq x))
                      (ap (chain_start d transfer) c ∙ resumes transfer b x))
                (ground (arith, e, h)) in
            (omega (arith, rest.0, step.0), rest.1)
      ]

  offered_entry :
      (t device_id transfer : String) (offer : Payload) (s : Device)
      → ((entry_of device_id t (handle_offer device_id transfer offer s).1).received ≡ 0)
        × ((entry_of device_id t (handle_offer device_id transfer offer s).1).chain ≡ "")
  unfolding handle_offer entry_of
  offered_entry t device_id transfer offer s = (
    ap (λ (e : Incoming). e.received) (entry_of-set_incoming device_id t _ s),
    ap (λ (e : Incoming). e.chain) (entry_of-set_incoming device_id t _ s),
  )

  -- An entry that counts an item is there, whatever a missing one would be.
  entry_there :
      (device_id t : String) (s : Device) (n : ℕ)
      → (entry_of device_id t s).received ≡ suc n
      → entry_of device_id t s ≡ entry_of device_id "" s
  unfolding entry_of
  entry_there device_id t s n h = elim (Option-cases (get_key device_id s.sync.incoming)) [
    | inl e ↦ ground (arith, e, h)
    | inr (entry, e) ↦ ground (arith, e)
  ]

  completes :
      (device_id : String) (complete : Payload) (n : ℕ) (chain : String) (s : Device)
      → complete.count ≡ some n
      → complete.chain ≡ some chain
      → (entry_of device_id "" s).received ≡ n
      → (entry_of device_id "" s).chain ≡ chain
      → (chain == "") ≡ false
      → (handle_complete device_id complete s).0 ≡ finished n n
  unfolding handle_complete number or_text
  completes device_id complete n chain s c h r k e = ground (arith, c, h, r, k, e, eq_self chain)

  stays_open :
      (device_id : String) (complete : Payload) (chain : String) (s : Device)
      → complete.count ≡ some 0
      → complete.chain ≡ some chain
      → (entry_of device_id "" s).received ≡ 0
      → (entry_of device_id "" s).chain ≡ ""
      → (chain == "") ≡ false
      → (handle_complete device_id complete s).0 ≡ incomplete 0 0
  unfolding handle_complete number or_text
  stays_open device_id complete chain s c h r k e =
      ground (arith, c, h, r, k, e, (eq_law "" chain).0, (eq_law chain "").1)

  -- A transfer of at least one item that arrives whole and in order, each item merged without an
  -- error, is reported complete by the COMPLETE that its sender makes. A transfer of no item at
  -- all is reported incomplete by that record, since nothing has started the digest.
  pub handle_complete-receive_items :
      (now : ℕ) (device_id transfer : String) (offer complete empty : Payload) (raw : Bytes)
      (item : Payload) (items : List (Bytes × Payload)) (s s' : Device)
      → receive_items decode digest d identity_id random_id now device_id transfer
          ((raw, item) ∷ items)
          1
          (handle_offer device_id transfer offer s).1
        ≡ some s'
      → complete.count ≡ some (suc (length items))
      → complete.chain
        ≡ some
            (hexdigest d (sent_chain d (raw ∷ map (λ i. i.0) items) 1 (chain_start d transfer "")))
      → empty.count ≡ some 0
      → empty.chain ≡ some (hexdigest d (sent_chain d [] 1 (chain_start d transfer "")))
      → ((handle_complete device_id complete s').0
          ≡ finished (suc (length items)) (suc (length items)))
        × ((handle_complete device_id empty (handle_offer device_id transfer offer s).1).0
            ≡ incomplete 0 0)
  unfolding receive_items sent_chain
  handle_complete-receive_items now device_id transfer offer complete empty raw item items s s' h c
        k c' k' =
      let start = (handle_offer device_id transfer offer s).1 in
      let applied =
        apply_item decode digest d identity_id random_id now device_id transfer raw item 1 start in
      (
        elim (Result-cases applied.0) [
          | inr (a, e) ↦ ground (arith, e, h)
          | inl (reply, e) ↦
              let offered = offered_entry transfer device_id transfer offer s in
              let step = item_progress now device_id transfer raw item 1 start reply e in
              let b = chain_add d raw 1 (chain_start d transfer "") in
              let rest =
                received_entry now device_id transfer items 2 applied.1 s' b
                  (added raw 1 (chain_start d transfer ""))
                  (step.1
                    ∙ ap (λ x. hexdigest d (chain_add d raw 1 (chain_start d transfer x)))
                        offered.1)
                  (ground (arith, e, h)) in
              let counted : (entry_of device_id transfer s').received ≡ suc (length items) =
                omega (arith, rest.0, step.0, offered.0) in
              let there = entry_there device_id transfer s' (length items) counted in
              completes device_id complete (suc (length items))
                (hexdigest d (sent_chain d (map (λ i. i.0) items) 2 b)) s' c k
                (ap (λ (x : Incoming). x.received) (sym there) ∙ counted)
                (ap (λ (x : Incoming). x.chain) (sym there) ∙ rest.1)
                (hex_digest_some (sent_chain d (map (λ i. i.0) items) 2 b)
                  (sent (map (λ i. i.0) items) 2 b (added raw 1 (chain_start d transfer ""))))
        ],
        let offered = offered_entry "" device_id transfer offer s in
            stays_open device_id empty (hexdigest d (chain_start d transfer "")) start c' k'
              offered.0 offered.1 (hex_digest_some (chain_start d transfer "") (started transfer)),
      )
