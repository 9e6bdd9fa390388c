-- ===== src/Local/Cursors.antt =====
-- noknowledge/core/store.py: how far each mailbox has been read on each relay.
use noknowledge.Base.{
  ℕ, max, String, Bool, ◌&&◌, true, false, Option, none, some, List, [], ◌∷◌, map, ◌==◌, eq_String,
  eq_law, if◌then◌else◌, select, first, ◌≡◌, refl, ap, ◌∙◌, arith, inl, inr, Bool-cases,
}
use noknowledge.Local.Schema.{Cursor, LocalStore, upsert, first-upsert_same, first-upsert_other}
use noknowledge.Wire.Pool.{cursor}

abbrev pub is_cursor : String → String → String → Cursor → Bool
is_cursor identity_id mailbox_id relay c =
    c.identity_id == identity_id && c.mailbox_id == mailbox_id && c.relay == relay

-- The dictionary from relays to numbers.
unfoldable pub get_cursors : String → String → LocalStore → List (String × ℕ)
get_cursors identity_id mailbox_id store =
    map (λ c. (c.relay, c.seq))
      (select (λ c. c.identity_id == identity_id && c.mailbox_id == mailbox_id) store.cursors)

unfoldable pub set_cursor : String → String → String → ℕ → LocalStore → LocalStore
set_cursor identity_id mailbox_id relay seq store = record store {
  cursors =
      upsert (is_cursor identity_id mailbox_id relay)
        (record { identity_id = identity_id; mailbox_id = mailbox_id; relay = relay; seq = seq })
        (λ c. record c { seq = max c.seq seq }) store.cursors;
}

-- Calls of `set_cursor` in a row: each is the identity, the mailbox, the relay and the number.
unfoldable pub set_cursors : List (String × String × String × ℕ) → LocalStore → LocalStore
unfolding set_cursor
set_cursors [] store = store
set_cursors ((identity, mailbox, relay, seq) ∷ calls) store =
    set_cursors calls (set_cursor identity mailbox relay seq store)

-- The higher of a number that is there and another.
abbrev pub raised : Option ℕ → ℕ → Option ℕ
raised none n = some n
raised (some m) n = some (max m n)

module _ (i m r : String) where
  abbrev pub is_call : String × String × String × ℕ → Bool
  is_call (i', m', r', n) = i' == i && m' == m && r' == r

  -- The highest number of the calls for one cursor.
  unfoldable pub highest : List (String × String × String × ℕ) → Option ℕ → Option ℕ
  highest [] old = old
  highest ((i', m', r', n) ∷ calls) old =
      highest calls (if is_call (i', m', r', n) then raised old n else old)

  abbrev position : List Cursor → Option ℕ
  position rows =
      cursor
        (map (λ c. (c.relay, c.seq)) (select (λ c. c.identity_id == i && c.mailbox_id == m) rows)) r

  position-first :
      (rows : List Cursor)
      → position rows ≡ elim (first (is_cursor i m r) rows) [ none ↦ none | some c ↦ some c.seq ]
  unfolding select first
  position-first [] = refl
  position-first (c ∷ cs) = ground (arith, position-first cs)

  module _ (i' m' r' : String) (n : ℕ) where
    abbrev mine : Cursor → Bool
    mine = is_cursor i m r

    abbrev theirs : Cursor → Bool
    theirs = is_cursor i' m' r'

    abbrev seq_of : Option Cursor → Option ℕ
    seq_of none = none
    seq_of (some c) = some c.seq

    same_cursor : is_call (i', m', r', n) ≡ true → (c : Cursor) → theirs c ≡ mine c
    same_cursor h c =
        let a : i' ≡ i = ground (arith, eq_law i' i) in
        let b : m' ≡ m = ground (arith, eq_law m' m) in
        let d : r' ≡ r = ground (arith, eq_law r' r) in rw (a, b, d)

    other_cursor : is_call (i', m', r', n) ≡ false → (c : Cursor) → mine c ≡ true → theirs c ≡ false
    other_cursor h c k = ground (
      arith,
      eq_law c.identity_id i',
      eq_law c.identity_id i,
      eq_law i' i,
      eq_law c.mailbox_id m',
      eq_law c.mailbox_id m,
      eq_law m' m,
      eq_law c.relay r',
      eq_law c.relay r,
      eq_law r' r,
    )

    abbrev new_cursor : Cursor
    new_cursor = record { identity_id = i'; mailbox_id = m'; relay = r'; seq = n }

    abbrev raise_cursor : Cursor → Cursor
    raise_cursor c = record c { seq = max c.seq n }

    raised_seq :
        (o : Option Cursor)
        → some (elim o as (λ _. Cursor) [ none ↦ new_cursor | some c ↦ raise_cursor c ]).seq
          ≡ raised (seq_of o) n
    raised_seq none = refl
    raised_seq (some c) = refl

    position-set_cursor :
        (rows : List Cursor)
        → position (upsert theirs new_cursor raise_cursor rows)
          ≡ (if is_call (i', m', r', n) then raised (position rows) n else position rows)
    position-set_cursor rows =
        let before = position-first rows in
        let after = position-first (upsert theirs new_cursor raise_cursor rows) in
        elim (Bool-cases (is_call (i', m', r', n))) [
          | inl e ↦
              let found =
                first-upsert_same mine theirs new_cursor raise_cursor rows (λ c. refl)
                  (same_cursor e) e in
              rw (e, after, found, before) (raised_seq (first mine rows))
          | inr e ↦
              let found =
                first-upsert_other mine theirs new_cursor raise_cursor rows (λ c. refl)
                  (other_cursor e) e in
              rw (e, after, found, before) refl
        ]

  -- The number that `get_cursors` has for a relay after any calls of `set_cursor` is the highest
  -- of those that the calls set for the same identity, mailbox and relay, and of the one before:
  -- a cursor never falls, and the calls for other cursors do not touch it.
  pub get_cursors-set_cursors :
      (calls : List (String × String × String × ℕ)) (store : LocalStore)
      → cursor (get_cursors i m (set_cursors calls store)) r
        ≡ highest calls (cursor (get_cursors i m store) r)
  unfolding get_cursors set_cursor set_cursors highest
  get_cursors-set_cursors [] store = refl
  get_cursors-set_cursors ((i', m', r', n) ∷ calls) store =
      let next = set_cursor i' m' r' n store in
      get_cursors-set_cursors calls next
      ∙ ap (highest calls) (position-set_cursor i' m' r' n store.cursors)
