-- ===== src/Core/Inbox/Once.antt =====
-- noknowledge/core/client.py: messages that arrive twice, what a round acknowledges, and what the
-- outbox sends again.
use noknowledge.Base.{
  ℕ, ◌≤◌, max, String, Bytes, Bool, ◌&&◌, Option, none, some, List, [], ◌∷◌, ◌++◌, ◌==◌, eq_String,
  eq_ℕ, if◌then◌else◌, leb, ◌≡◌, refl, sym, ap, subst, arith, inl, inr, Bool-cases, Option-cases,
  eq_law, first, select, All, All-append, order_by, insert_by,
}
use noknowledge.Base.Outcome.{Result}
use noknowledge.Local.Schema.{OutboxEntry, Contact, LocalStore}
use noknowledge.Local.Outbox.{is_entry, outbox_add, outbox_list, for_contact}
use noknowledge.Core.Dicts.{Dict, get_key, set_key, get_key-set_key, get_key-set_key_other}
use noknowledge.Core.Inbox.{
  Fetched, note_seq, handle_one, handle_all, sync, flush_entry, flush_entries, flush_outbox, Copy,
  queued, queue_outbox, queue_all,
}

abbrev pub acknowledged : String → Dict ℕ → ℕ
acknowledged relay seqs = elim (get_key relay seqs) [ none ↦ 0 | some seq ↦ seq ]

acknowledged-note_seq :
    (relay : String) (item : Fetched) (seqs : Dict ℕ)
    → (acknowledged relay seqs ≤ acknowledged relay (note_seq item seqs))
      × (item.seq ≤ acknowledged item.relay (note_seq item seqs))
unfolding note_seq
acknowledged-note_seq relay item seqs =
    let n : ℕ = max (acknowledged item.relay seqs) item.seq in
    (
      elim (Bool-cases (item.relay == relay)) [
        | inl e ↦ ground (
          arith,
          get_key-set_key item.relay n seqs,
          ap (λ r. get_key r (set_key item.relay n seqs)) ((eq_law item.relay relay).0 e),
          ap (λ r. get_key r seqs) ((eq_law item.relay relay).0 e),
        )
        | inr e ↦ ground (arith, get_key-set_key_other item.relay relay n seqs e)
      ],
      ground (arith, get_key-set_key item.relay n seqs),
    )

module _ {S M : Type 0} (handle : Bytes → S → Result String (Option M) × S) where
  acknowledged_more :
      (relay : String) (items : List Fetched) (acc : List M × Dict ℕ × S)
      → acknowledged relay acc.1 ≤ acknowledged relay (handle_all handle items acc).1
  unfolding handle_all handle_one
  acknowledged_more relay [] acc = omega arith
  acknowledged_more relay (item ∷ items) acc = omega (
    arith,
    (acknowledged-note_seq relay item acc.1).0,
    acknowledged_more relay items (handle_one handle item acc),
  )

  acks-All :
      (items : List Fetched) (acc : List M × Dict ℕ × S)
      → All (λ item. item.seq ≤ acknowledged item.relay (handle_all handle items acc).1) items
  unfolding handle_all handle_one
  acks-All [] acc = tt
  acks-All (item ∷ items) acc = (
    omega (
      arith,
      (acknowledged-note_seq item.relay item acc.1).1,
      acknowledged_more item.relay items (handle_one handle item acc),
    ),
    acks-All items (handle_one handle item acc),
  )

  -- A round acknowledges every blob that it fetched, those too whose handling failed: the number
  -- that it acknowledges at a relay is at least that of each blob of the relay.
  pub sync-acks :
      (items : List Fetched) (s : S)
      → All (λ item. item.seq ≤ acknowledged item.relay (sync handle items s).1) items
  unfolding sync
  sync-acks items s = acks-All items ([], [], s)

-- What is queued counts as sent.
abbrev pub Sent : OutboxEntry → Type 0
Sent entry = entry.seq ≡ some 1

All-select : (p : OutboxEntry → Bool) (es : List OutboxEntry) → All Sent es → All Sent (select p es)
unfolding select
All-select p [] h = tt
All-select p (e ∷ es) h = elim (Bool-cases (p e)) [
  | inl k ↦
      subst (All Sent) (sym (ap (λ b. if b then e ∷ select p es else select p es) k))
        (h.0, All-select p es h.1)
  | inr k ↦
      subst (All Sent) (sym (ap (λ b. if b then e ∷ select p es else select p es) k))
        (All-select p es h.1)
]

All-insert_by :
    (key : OutboxEntry → ℕ) (e : OutboxEntry) (es : List OutboxEntry)
    → Sent e
    → All Sent es
    → All Sent (insert_by key e es)
unfolding insert_by
All-insert_by key e [] s h = (s, tt)
All-insert_by key e (x ∷ xs) s h = elim (Bool-cases (leb (key e) (key x))) [
  | inl k ↦
      subst (All Sent) (sym (ap (λ b. if b then e ∷ x ∷ xs else x ∷ insert_by key e xs) k)) (s, h)
  | inr k ↦
      subst (All Sent) (sym (ap (λ b. if b then e ∷ x ∷ xs else x ∷ insert_by key e xs) k))
        (h.0, All-insert_by key e xs s h.1)
]

All-order_by :
    (key : OutboxEntry → ℕ) (es : List OutboxEntry) → All Sent es → All Sent (order_by key es)
unfolding order_by
All-order_by key [] h = tt
All-order_by key (e ∷ es) h = All-insert_by key e (order_by key es) h.0 (All-order_by key es h.1)

module _ {D : Type 0} (device_for : Contact → String → Option D) (put : D → String → Bool)
    (identity_id : String) where
  flush_entries-Sent :
      (es : List OutboxEntry) (acc : ℕ × LocalStore)
      → All Sent es
      → flush_entries device_for put identity_id es acc ≡ acc
  unfolding flush_entries flush_entry
  flush_entries-Sent [] acc h = refl
  flush_entries-Sent (e ∷ es) acc h = ground (arith, h.0, flush_entries-Sent es acc h.1)

  flush_outbox-Sent :
      (store : LocalStore)
      → All Sent store.outbox
      → flush_outbox device_for put identity_id store ≡ (0, store)
  unfolding flush_outbox outbox_list
  flush_outbox-Sent store h =
      flush_entries-Sent (outbox_list identity_id none store) (0, store)
        (All-order_by (λ e. e.created_at)
          (select (λ e. e.identity_id == identity_id && for_contact none e) store.outbox)
          (All-select (λ e. e.identity_id == identity_id && for_contact none e) store.outbox h))

  queue_outbox-Sent :
      (c : Copy) (store : LocalStore)
      → All Sent store.outbox
      → All Sent (queue_outbox identity_id c store).1.outbox
  unfolding queue_outbox queued outbox_add
  queue_outbox-Sent c store h =
      let row =
        queued identity_id c.contact_id c.message_id c.device_id c.mailbox_id c.relays c.payload
          c.now in
      elim (Option-cases (first (is_entry row.id) store.outbox)) [
        | inl e ↦
            let added : (queue_outbox identity_id c store).1.outbox ≡ store.outbox ++ row ∷ [] =
              ground (arith, e) in
            subst (All Sent) (sym added) (All-append Sent store.outbox (row ∷ []) h (refl, tt))
        | inr (_, e) ↦
            let kept : (queue_outbox identity_id c store).1.outbox ≡ store.outbox =
              ground (arith, e) in
            subst (All Sent) (sym kept) h
      ]

  queue_all-Sent :
      (copies : List Copy) (store : LocalStore)
      → All Sent store.outbox
      → All Sent (queue_all identity_id copies store).outbox
  unfolding queue_all
  queue_all-Sent [] store h = h
  queue_all-Sent (c ∷ copies) store h =
      queue_all-Sent copies (queue_outbox identity_id c store).1 (queue_outbox-Sent c store h)

  -- The client queues copies of messages, any of them, in a store whose outbox is empty. A flush
  -- then sends nothing and changes nothing, whatever devices it would find and whatever they would
  -- answer.
  pub flush_outbox-queue_all :
      (copies : List Copy) (store : LocalStore)
      → store.outbox ≡ []
      → flush_outbox device_for put identity_id (queue_all identity_id copies store)
        ≡ (0, queue_all identity_id copies store)
  flush_outbox-queue_all copies store h =
      flush_outbox-Sent (queue_all identity_id copies store)
        (queue_all-Sent copies store (subst (All Sent) (sym h) tt))
