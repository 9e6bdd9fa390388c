-- ===== src/Local/Contacts.antt =====
-- noknowledge/core/store.py: the contacts.
use noknowledge.Base.{
  String, Bool, ◌&&◌, Option, List, ◌==◌, eq_String, select, delete, update, first, order_by,
}
use noknowledge.Local.Schema.{Contact, LocalStore, upsert}

abbrev pub is_contact : String → String → Contact → Bool
is_contact identity_id contact_id c = c.identity_id == identity_id && c.id == contact_id

-- The time of a contact that is there stays.
unfoldable pub upsert_contact : Contact → LocalStore → LocalStore
upsert_contact contact store = record store {
  contacts =
      upsert (is_contact contact.identity_id contact.id) contact
        (λ old. record contact { created_at = old.created_at }) store.contacts;
}

unfoldable pub get_contact : String → String → LocalStore → Option Contact
get_contact identity_id contact_id store = first (is_contact identity_id contact_id) store.contacts

unfoldable pub list_contacts : String → LocalStore → List Contact
list_contacts identity_id store =
    order_by (λ c. c.created_at) (select (λ c. c.identity_id == identity_id) store.contacts)

unfoldable pub delete_contact : String → String → LocalStore → LocalStore
delete_contact identity_id contact_id store = record store {
  contacts = delete (is_contact identity_id contact_id) store.contacts;
}

unfoldable pub set_contact_session : String → String → Option String → LocalStore → LocalStore
set_contact_session identity_id contact_id session store = record store {
  contacts =
      update (is_contact identity_id contact_id) (λ c. record c { session = session })
        store.contacts;
}
