-- ===== src/Local/Messages.antt =====
-- noknowledge/core/store.py: the messages.
use Prim.Native.String.{compare}
use Prim.Native.Nat.{Ordering}
use noknowledge.Base.{
  String, Bool, true, false, ◌&&◌, ◌||◌, Option, none, some, List, [], ◌∷◌, ◌==◌, eq_String, leb,
  if◌then◌else◌, select, update, first,
}
use noknowledge.Base.Int.{ℤ, pos, negsuc, eq_ℤ}
use noknowledge.Local.Schema.{Message, LocalStore, upsert}

abbrev pub is_message : String → Message → Bool
is_message id m = m.id == id

unfoldable pub add_message : Message → LocalStore → LocalStore
add_message message store = record store {
  messages =
      upsert (is_message message.id) message
        (λ old. record old {
          body = message.body;
          remote_id = message.remote_id;
          state = message.state;
          meta = message.meta;
        })
        store.messages;
}

unfoldable pub get_message : String → LocalStore → Option Message
get_message id store = first (is_message id) store.messages

-- The integers and the texts in order.
abbrev pub int_leb : ℤ → ℤ → Bool
int_leb (pos a) (pos b) = leb a b
int_leb (pos a) (negsuc b) = false
int_leb (negsuc a) (pos b) = true
int_leb (negsuc a) (negsuc b) = leb b a

abbrev pub text_leb : String → String → Bool
text_leb a b = elim (compare a b) [ Ordering.gt ↦ false | _ ↦ true ]

-- ORDER BY ... ASC, for a given order; rows that it does not tell apart keep theirs.
module _ {A : Type 0} (before : A → A → Bool) where
  unfoldable pub insert_with : A → List A → List A
  insert_with x [] = x ∷ []
  insert_with x (y ∷ ys) =
      let rest = insert_with x ys in if before x y then x ∷ y ∷ ys else y ∷ rest

  unfoldable pub order_with : List A → List A
  unfolding insert_with
  order_with [] = []
  order_with (x ∷ xs) = insert_with x (order_with xs)

unfoldable pub list_messages : String → String → LocalStore → List Message
unfolding order_with
list_messages identity_id contact_id store =
    order_with (λ a b. int_leb a.ts b.ts)
      (select (λ m. m.identity_id == identity_id && m.contact_id == contact_id) store.messages)

-- No direction, or an empty one, matches every message.
abbrev pub in_direction : Option String → Message → Bool
in_direction none m = true
in_direction (some direction) m = direction == "" || m.direction == direction

abbrev pub has_remote_id : String → Message → Bool
has_remote_id remote_id m = elim m.remote_id [ none ↦ false | some r ↦ r == remote_id ]

unfoldable pub find_by_remote_id : String → String → Option String → LocalStore → Option Message
find_by_remote_id identity_id remote_id direction store =
    first
      (λ m. m.identity_id == identity_id && has_remote_id remote_id m && in_direction direction m)
      store.messages

unfoldable pub list_all_messages : String → LocalStore → List Message
unfolding order_with
list_all_messages identity_id store =
    order_with (λ a b. int_leb a.ts b.ts && (if a.ts == b.ts then text_leb a.id b.id else true))
      (select (λ m. m.identity_id == identity_id) store.messages)

-- The fields that the client changes.
pub data MessageField : Type 0 where
  body_field state_field meta_field remote_id_field : Option String → MessageField

abbrev pub set_field : MessageField → Message → Message
set_field (body_field v) m = record m { body = v }
set_field (state_field v) m = record m { state = v }
set_field (meta_field v) m = record m { meta = v }
set_field (remote_id_field v) m = record m { remote_id = v }

abbrev pub set_fields : List MessageField → Message → Message
set_fields [] m = m
set_fields (f ∷ fs) m = set_fields fs (set_field f m)

-- Without fields there is nothing to do.
unfoldable pub update_message : String → List MessageField → LocalStore → LocalStore
update_message id [] store = store
update_message id (f ∷ fs) store = record store {
  messages = update (is_message id) (set_fields (f ∷ fs)) store.messages;
}
