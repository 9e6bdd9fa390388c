-- ===== src/Core/History/Tests.antt =====
-- Concrete runs of the history: collecting, exporting, importing and merging.
use Prim.Native.Char.{nul}
use Prim.Native.String.{count as text_count}
use Prim.Native.String.count.{nil, cons}
use noknowledge.Base.{
  zero, suc, ◌≤◌, ◌+◌, ◌||◌, length, sym, ap, ◌∙◌, ℕ, Bytes, String, ◌≡◌, refl, Option, none, some,
  List, [], ◌∷◌, ◌++◌, eq_String, eq_ℕ, map, arith, Option-cases, inl, inr, count, first,
}
use noknowledge.Base.Int.{pos, eq_ℤ}
use noknowledge.Base.Outcome.{ok}
use noknowledge.Base.Slices.{to_bytes4}
use noknowledge.Crypto.Toy.{plain, plain-Laws, repeat, length-repeat}
use noknowledge.Crypto.Aead.{encrypt}
use noknowledge.Local.Schema.{Message, LocalStore, empty_store}
use noknowledge.Local.Messages.{get_message}
use noknowledge.Core.History.Items.{
  MessageItem, message_item, message_key, local_key_of, key_eq, text_eq,
}
use noknowledge.Core.History.Merge.{Bundle, merge_messages, merge_bundle}
use noknowledge.Core.History.Outcome.{exported}
use noknowledge.Core.History.Again.{start, merge_messages_twice}
use noknowledge.Core.History.Build.{collect_chunks, nothing}
use noknowledge.Core.History.Budget.{total, named, wanted, collect_chunks-within}
use noknowledge.Core.History.File.{
  FileHeader, FilePrimitives, raw_bundle, export_history, assemble, read_history, import_history,
}
use noknowledge.Core.History.File.Import.{import_history-export_history}

abbrev digest : Option String → String
digest none = "none"
digest (some body) = body

abbrev said : String → String → Option String → Message
said id remote state = record {
  id = id;
  identity_id = "other";
  contact_id = "bob";
  direction = "received";
  kind = "text";
  body = some "hello";
  remote_id = some remote;
  ts = pos 5;
  state = state;
  meta = none;
}

abbrev sent_messages : List Message
sent_messages = said "a" "r1" (some "read") ∷ said "b" "r2" none ∷ []

-- As many characters as the number.
strokes : ℕ → String
strokes zero = String.[]
strokes (suc n) = String.◌∷◌ nul (strokes n)

text_count-strokes : (n : ℕ) → text_count (strokes n) ≡ n
unfolding strokes
text_count-strokes zero = nil
text_count-strokes (suc n) = cons nul (strokes n) ∙ ap suc (text_count-strokes n)

strokes-injective : (a b : ℕ) → strokes a ≡ strokes b → a ≡ b
strokes-injective a b h = sym (text_count-strokes a) ∙ (ap text_count h ∙ text_count-strokes b)

merge_messages_twice_example :
    merge_messages digest "me" strokes (map exported sent_messages) (
      start digest "me" strokes
        (merge_messages digest "me" strokes
          (map exported sent_messages)
          (start digest "me" strokes empty_store)).store)
    ≡ start digest "me" strokes
        (merge_messages digest "me" strokes
          (map exported sent_messages)
          (start digest "me" strokes empty_store)).store
unfolding get_message first count key_eq text_eq message_key message_item local_key_of
merge_messages_twice_example =
    merge_messages_twice digest "me" strokes strokes-injective sent_messages empty_store
      ((refl, refl), ((refl, refl), tt)) ((refl, tt), (tt, tt)) (λ key. omega arith)
      (λ id. omega arith) (λ n. refl)

-- The attachment of every message is one chunk.
abbrev one_chunk : Option String → List String
one_chunk body = "c" ∷ []

abbrev held : LocalStore
held = record empty_store {
  local_blobs = record { chunk_id = "c"; ciphertext = 1 ∷ 2 ∷ []; size = 2; created_at = 0 } ∷ [];
}

abbrev bob_items : List MessageItem
bob_items = message_item "bob" (said "a" "r1" none) ∷ []

collect_chunks-within_example :
    let c = collect_chunks one_chunk held 100 bob_items nothing in
    (total c.chunks ≡ c.used)
    × (c.used ≤ 100)
    × (length c.seen ≡ length c.chunks + length c.skipped)
    × ((id : String) → (named id c.chunks || named id c.skipped) ≡ wanted one_chunk id bob_items)
collect_chunks-within_example = collect_chunks-within one_chunk held 100 bob_items

-- JSON and zlib that know one header and one bundle.
abbrev small : Bundle
small = record {
  contact_items = [];
  message_items = message_item "bob" (said "a" "r1" none) ∷ [];
  chunk_items = [];
}

abbrev some_number : Option ℕ → ℕ
some_number none = 0
some_number (some n) = suc n

abbrev number_of : ℕ → Option ℕ
number_of zero = none
number_of (suc n) = some n

-- A header as numbers: the version, the iterations, and the salt after a mark if there is one.
abbrev header_bytes : FileHeader → Bytes
header_bytes h =
    some_number h.v
    ∷ some_number h.kdf_iterations
    ∷ elim h.kdf_salt [ none ↦ [] | some salt ↦ 1 ∷ salt ]

abbrev header_of : Bytes → Option FileHeader
header_of (v ∷ n ∷ []) =
    some (record { v = number_of v; kdf_salt = none; kdf_iterations = number_of n })
header_of (v ∷ n ∷ _ ∷ salt) =
    some (record { v = number_of v; kdf_salt = some salt; kdf_iterations = number_of n })
header_of _ = none

-- JSON that knows this bundle, and zlib that compresses nothing.
abbrev files : FilePrimitives
files = record {
  header_dumps = header_bytes;
  header_loads = header_of;
  bundle_dumps = λ b. [];
  bundle_loads = λ b. some (some (raw_bundle small));
  compress = λ b. b;
  decompress = λ b. some b;
  derive_key = λ w salt n. repeat 32 4;
}

number_again : (o : Option ℕ) → number_of (some_number o) ≡ o
number_again none = refl
number_again (some n) = refl

header_again : (h : FileHeader) → header_of (header_bytes h) ≡ some h
header_again h = elim (Option-cases h.kdf_salt) [
  | inl e ↦ ground (arith, e, number_again h.v, number_again h.kdf_iterations)
  | inr (salt, e) ↦ ground (arith, e, number_again h.v, number_again h.kdf_iterations)
]

abbrev file_bytes : Bytes
file_bytes =
    78 ∷ 75 ∷ 88 ∷ 49 ∷ 1 ∷ 0 ∷ 0 ∷ 0 ∷ 5 ∷ 2 ∷ 600001 ∷ 1 ∷ 1 ∷ 6 ∷ (repeat 12 8 ++ 0 ∷ [])

written_file : export_history plain files (6 ∷ []) (repeat 12 8) small "secret" ≡ ok file_bytes
unfolding export_history assemble encrypt to_bytes4
written_file = refl

abbrev decode : Bytes → Option Bytes
decode b = some b

import_history-export_history_example :
    (read_history plain files file_bytes "secret" ≡ ok small)
    × (import_history plain files decode digest "me" strokes 3 file_bytes "secret" empty_store
        ≡ merge_bundle decode digest "me" strokes 3 small empty_store)
import_history-export_history_example =
    import_history-export_history plain plain-Laws files header_again small refl (λ b. refl)
      (λ w salt n. length-repeat 32 4) (λ key nonce plaintext ad. omega arith) (6 ∷ [])
      (repeat 12 8) file_bytes "secret" decode digest "me" strokes 3 empty_store refl (omega arith)
      written_file
