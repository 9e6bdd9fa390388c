-- ===== src/Core/History/Items.antt =====
-- noknowledge/core/history.py: the items of a bundle, the key that tells messages apart, and the
-- ranks of their states. An item is a JSON object: a field that is missing or null is `none`, and
-- a body or a list of relays is its JSON text, as in the local store.
use noknowledge.Base.{
  ℕ, String, Bytes, Bool, true, false, ◌&&◌, Option, none, some, ◌≡◌, ◌↔◌, arith, Eq, eq_String,
  ◌==◌, if◌then◌else◌, eq_law,
}
use noknowledge.Base.Int.{ℤ, pos, eq_ℤ}
use noknowledge.Local.Schema.{Contact, Message}

-- `STATE_RANK`, with 0 for a state it does not have
unfoldable pub state_rank : Option String → ℕ
state_rank none = 0
state_rank (some state) = if state == "delivered" then 1 else if state == "read" then 2 else 0

pub record ContactItem : Type 0 where
  pub id : Option String
  pub isign : Option Bytes
  pub idh : Option Bytes
  pub bundle : Option String
  pub inbox : Option String
  pub relays : Option String
  pub nickname : Option String
  pub verified : Bool
  pub created_at : ℕ

pub record MessageItem : Type 0 where
  pub id : Option String
  pub contact_id : Option String
  pub direction : Option String
  pub kind : Option String
  pub body : Option String
  pub remote_id : Option String
  pub ts : Option ℤ
  pub state : Option String

pub record ChunkItem : Type 0 where
  pub id : Option String
  pub ct : Option Bytes

-- `value or default`, for a text
unfoldable pub or_text : Option String → String → String
or_text none default = default
or_text (some text) default = if text == "" then default else text

unfoldable pub or_zero : Option ℤ → ℤ
or_zero none = pos 0
or_zero (some t) = t

-- The item of a message has no id of its own. `mirror_message` adds the id that the message has
-- in the store.
unfoldable pub message_item : String → Message → MessageItem
message_item contact_id m = record {
  id = none;
  contact_id = some contact_id;
  direction = some m.direction;
  kind = some m.kind;
  body = m.body;
  remote_id = m.remote_id;
  ts = some m.ts;
  state = m.state;
}

-- `b64` is `b64e` of the keys; an inbox and a list of relays are texts already.
unfoldable pub contact_item : (Bytes → Bytes) → Contact → ContactItem
contact_item b64 c = record {
  id = some c.id;
  isign = some (b64 c.isign);
  idh = some (b64 c.idh);
  bundle = c.bundle_id;
  inbox = some c.inbox;
  relays = some c.relays;
  nickname = c.nickname;
  verified = c.verified;
  created_at = c.created_at;
}

pub data MessageKey : Type 0 where
  remote_key : Option String → Option String → String → MessageKey
  local_key : Option String → Option String → ℤ → String → String → MessageKey

unfoldable pub text_eq : Option String → Option String → Bool
text_eq none none = true
text_eq (some a) (some b) = a == b
text_eq _ _ = false

pub text_eq_iff : (a b : Option String) → (text_eq a b ≡ true) ↔ (a ≡ b)
unfolding text_eq
text_eq_iff none none = ground arith
text_eq_iff none (some b) = ground arith
text_eq_iff (some a) none = ground arith
text_eq_iff (some a) (some b) = ground (arith, eq_law a b)

instance abbrev pub eq_Text : Eq (Option String)
eq_Text = record { same = text_eq; same_iff = text_eq_iff }

unfoldable pub key_eq : MessageKey → MessageKey → Bool
key_eq (remote_key c d r) (remote_key c' d' r') = c == c' && d == d' && r == r'
key_eq (local_key c d t k b) (local_key c' d' t' k' b') =
    c == c' && d == d' && t == t' && k == k' && b == b'
key_eq _ _ = false

pub key_eq_iff : (a b : MessageKey) → (key_eq a b ≡ true) ↔ (a ≡ b)
unfolding key_eq
key_eq_iff (remote_key c d r) (remote_key c' d' r') =
    ground (arith, eq_law c c', eq_law d d', eq_law r r')
key_eq_iff (remote_key c d r) (local_key c' d' t' k' b') = ground arith
key_eq_iff (local_key c d t k b) (remote_key c' d' r') = ground arith
key_eq_iff (local_key c d t k b) (local_key c' d' t' k' b') =
    ground (arith, eq_law c c', eq_law d d', eq_law t t', eq_law k k', eq_law b b')

instance abbrev pub eq_Key : Eq MessageKey
eq_Key = record { same = key_eq; same_iff = key_eq_iff }

-- `digest` is `_body_digest`: 16 hexadecimal digits of the SHA-256 of the body's JSON.
module _ (digest : Option String → String) where
  -- `str` of a missing value is "None".
  unfoldable pub local_key_of : MessageItem → MessageKey
  unfolding or_zero
  local_key_of item =
      local_key item.contact_id item.direction (or_zero item.ts)
        (elim item.kind [ none ↦ "None" | some k ↦ k ]) (digest item.body)

  unfoldable pub message_key : MessageItem → MessageKey
  unfolding local_key_of
  message_key item = elim item.remote_id [
    | none ↦ local_key_of item
    | some r ↦ if r == "" then local_key_of item else remote_key item.contact_id item.direction r
  ]

  -- The key of a message of the store, which is a dict with the same fields.
  abbrev pub key_of : Message → MessageKey
  key_of m = message_key (message_item m.contact_id m)
