-- ===== src/Local/Schema.antt =====
-- noknowledge/core/store.py: the tables of `LocalStore`. A column that is sealed holds its value
-- here, as `_open` undoes `_seal` under the one key of a store; a JSON value is its text, and None
-- is `none`. The tables of identities, prekeys and other state are not here.
use noknowledge.Base.{
  ℕ, String, Bytes, Bool, Option, none, some, List, [], ◌∷◌, ◌++◌, first, update, first-update,
  first-append, first-eq-true, true, false, ◌≡◌, refl, arith, inl, inr, Option-cases,
}
use noknowledge.Base.Int.{ℤ}

pub record Contact : Type 0 where
  pub identity_id : String
  pub id : String
  pub nickname : Option String
  pub isign : Bytes
  pub idh : Bytes
  pub bundle_id : Option String
  pub inbox : String
  pub relays : String
  pub session : Option String
  pub verified : Bool
  pub created_at : ℕ

pub record Message : Type 0 where
  pub id : String
  pub identity_id : String
  pub contact_id : String
  pub direction : String
  pub kind : String
  pub body : Option String
  pub remote_id : Option String
  pub ts : ℤ
  pub state : Option String
  pub meta : Option String

pub record OutboxEntry : Type 0 where
  pub id : String
  pub identity_id : String
  pub contact_id : String
  pub mailbox_id : String
  pub relay : Option String
  pub payload : String
  pub seq : Option ℕ
  pub created_at : ℕ

pub record Cursor : Type 0 where
  pub identity_id : String
  pub mailbox_id : String
  pub relay : String
  pub seq : ℕ

pub record LocalBlob : Type 0 where
  pub chunk_id : String
  pub ciphertext : Bytes
  pub size : ℕ
  pub created_at : ℕ

pub record LocalStore : Type 0 where
  pub contacts : List Contact
  pub messages : List Message
  pub outbox : List OutboxEntry
  pub cursors : List Cursor
  pub local_blobs : List LocalBlob

abbrev pub empty_store : LocalStore
empty_store = record { contacts = []; messages = []; outbox = []; cursors = []; local_blobs = [] }

-- INSERT ... ON CONFLICT ... DO UPDATE
abbrev pub upsert : {A : Type 0} → (A → Bool) → A → (A → A) → List A → List A
upsert key row change rows = elim (first key rows) [
  | none ↦ rows ++ row ∷ []
  | some _ ↦ update key change rows
]

-- What is found after an upsert, by a condition that is its key or excludes its key.
module _ {A : Type 0} (p q : A → Bool) (row : A) (f : A → A) (rows : List A) where
  first-same : ((a : A) → q a ≡ p a) → (xs : List A) → first q xs ≡ first p xs
  unfolding first
  first-same h [] = refl
  first-same h (x ∷ xs) = ground (arith, h x, first-same h xs)

  pub first-upsert_same :
      ((a : A) → p (f a) ≡ p a)
      → ((a : A) → q a ≡ p a)
      → p row ≡ true
      → first p (upsert q row f rows) ≡ some (elim (first p rows) [ none ↦ row | some a ↦ f a ])
  unfolding first
  first-upsert_same keeps same here = elim (Option-cases (first p rows)) [
    | inl e ↦ ground (arith, first-same same rows, first-append p rows (row ∷ []))
    | inr (a, e) ↦ ground (
      arith,
      first-same same rows,
      first-update p q f rows keeps,
      same a,
      first-eq-true p rows a e,
    )
  ]

  pub first-upsert_other :
      ((a : A) → p (f a) ≡ p a)
      → ((a : A) → p a ≡ true → q a ≡ false)
      → p row ≡ false
      → first p (upsert q row f rows) ≡ first p rows
  unfolding first
  first-upsert_other keeps apart away = elim (Option-cases (first q rows)) [
    | inl e ↦ elim (Option-cases (first p rows)) [
      | inl k ↦ ground (arith, first-append p rows (row ∷ []))
      | inr (a, k) ↦ ground (arith, first-append p rows (row ∷ []))
    ]
    | inr (b, e) ↦ elim (Option-cases (first p rows)) [
      | inl k ↦ ground (arith, first-update p q f rows keeps)
      | inr (a, k) ↦
          ground (arith, first-update p q f rows keeps, apart a (first-eq-true p rows a k))
    ]
  ]
