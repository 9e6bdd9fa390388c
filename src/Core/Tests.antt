-- ===== src/Core/Tests.antt =====
-- Concrete runs of the client's core.
use noknowledge.Base.{
  ℕ, ◌≤◌, Bytes, String, Bool, true, false, ◌≡◌, refl, Option, none, some, List, [], ◌∷◌, ◌++◌,
  eq_ℕ, eq_String, length, take, drop, arith, All,
}
use noknowledge.Base.Outcome.{Result, ok, err}
use noknowledge.Crypto.Toy.{plain, plain-Laws, repeat, length-repeat}
use noknowledge.Crypto.Aead.{encrypt}
use noknowledge.Local.Schema.{Contact, empty_store}
use noknowledge.Core.Channel.{
  DeviceHeader, DevicePrimitives, seal_record, open_record, frame, frame_bytes, signed_header,
  record_header, update_header, item_key, transfer_key, unsigned,
}
use noknowledge.Core.Channel.Opening.{open_record-seal_record}
use noknowledge.Core.Attachments.{
  Attachment, Manifest, chunk_count, encrypt_attachment, manifest_dict, decode_manifest,
  decrypt_attachment,
}
use noknowledge.Core.Attachments.Whole.{
  decrypt_attachment-encrypt_attachment, nonces_of, ciphertexts_of,
}
use noknowledge.Core.Inbox.{Envelope, Peers, Fetched, sync, Copy, queue_all, flush_outbox}
use noknowledge.Core.Inbox.Once.{sync-acks, flush_outbox-queue_all, acknowledged}

-- Inbox

abbrev quiet : Peers
quiet = record {
  send_receipt = λ contact of kind store. store;
  mirror_state = λ contact message store. store;
}

abbrev hello : Envelope
hello = record {
  kind = some "text";
  id = some "e1";
  body = some "hello";
  of = none;
  receipt = none;
  ts = some 5;
}

abbrev never_like : String → String → Bool
never_like a b = false

abbrev failing : Bytes → ℕ → Result String (Option String) × ℕ
failing blob n = (err "bad signature", n)

abbrev fetched : List Fetched
fetched =
    record { relay = "a"; seq = 4; blob = [] } ∷ record { relay = "b"; seq = 2; blob = [] } ∷ []

sync-acks_example :
    All (λ item. item.seq ≤ acknowledged item.relay (sync failing fetched 0).1) fetched
sync-acks_example = sync-acks failing fetched 0

abbrev copies : List Copy
copies =
    record {
      contact_id = "bob";
      message_id = "m1";
      device_id = "phone";
      mailbox_id = "box";
      relays = "a,b";
      payload = "payload";
      now = 3;
    }
    ∷ []

abbrev no_device : Contact → String → Option String
no_device c mailbox = some mailbox

abbrev always : String → String → Bool
always device payload = true

flush_outbox-queue_all_example :
    flush_outbox no_device always "me" (queue_all "me" copies empty_store)
    ≡ (0, queue_all "me" copies empty_store)
flush_outbox-queue_all_example =
    flush_outbox-queue_all no_device always "me" copies empty_store refl

-- Attachments

abbrev small_file : Bytes
small_file = 1 ∷ 2 ∷ 3 ∷ []

abbrev hash : Bytes → String
hash content = "hash"

abbrev drawn : ℕ → Bytes
drawn i = repeat 12 i

decrypt_attachment-encrypt_attachment_example :
    (a : Attachment) × (m : Manifest) × (encrypt_attachment plain hash
        (repeat 32 4)
        drawn
        small_file
      ≡ ok a)
    × (length a.chunks ≡ chunk_count (length small_file))
    × (manifest_dict plain hash a ("c1" ∷ []) ≡ ok m)
    × (decode_manifest plain hash m ≡ ok (repeat 32 4, "c1" ∷ [], nonces_of a.chunks, "hash"))
    × (decrypt_attachment plain hash
          (repeat 32 4)
          (nonces_of a.chunks)
          (ciphertexts_of a.chunks)
          "hash"
        ≡ ok small_file)
unfolding chunk_count
decrypt_attachment-encrypt_attachment_example =
    decrypt_attachment-encrypt_attachment plain plain-Laws hash drawn (repeat 32 4) refl
      (λ i. length-repeat 12 i) small_file ("c1" ∷ []) (omega arith) refl

-- The device channel

abbrev counted : DeviceHeader
counted = record {
  v = none;
  transfer = none;
  from = none;
  eph = none;
  ts = none;
  seq = none;
  count = some 2;
  chain = none;
  since = none;
  until = none;
  sig = none;
}

abbrev sent_header : DeviceHeader
sent_header = record {
  v = some 1;
  transfer = some "t";
  from = some "phone";
  eph = some (1 ∷ 2 ∷ []);
  ts = some 5;
  seq = some 1;
  count = some 2;
  chain = none;
  since = none;
  until = none;
  sig = some (1 ∷ 3 ∷ []);
}

-- JSON that knows one header.
abbrev device : DevicePrimitives
device = record {
  dumps = λ h. 123 ∷ 125 ∷ [];
  loads = λ b. some (some sent_header);
  utf8 = λ t. [];
  agreement_public = λ k. 2 ∷ [];
  sign = λ k m. 3 ∷ [];
  verify = λ k s m. true;
  sha256 = λ b. b;
  hex = λ b. "00";
  from_hex = λ t. [];
}

abbrev record_bytes : Bytes
record_bytes = frame_bytes 4 (123 ∷ 125 ∷ []) (repeat 12 8 ++ 0 ∷ 9 ∷ [])

sealed_record :
    seal_record plain device
      (7 ∷ [])
      (repeat 12 8)
      5
      4
      (9 ∷ [])
      (6 ∷ [])
      "phone"
      (5 ∷ [])
      "t"
      1
      (some counted)
    ≡ some record_bytes
unfolding seal_record frame signed_header record_header update_header item_key transfer_key encrypt
    unsigned
sealed_record = refl

open_record-seal_record_example :
    (open_record plain device record_bytes (4 ∷ []) (3 ∷ []) "phone" ≡ ok (4, sent_header, 9 ∷ []))
    × (open_record plain device
          (take 5 record_bytes ++ 6 ∷ drop 6 record_bytes)
          (4 ∷ [])
          (3 ∷ [])
          "phone"
        ≡ ok (6, sent_header, 9 ∷ []))
unfolding signed_header record_header update_header unsigned
open_record-seal_record_example =
    open_record-seal_record plain plain-Laws device (7 ∷ []) (repeat 12 8) (6 ∷ []) (5 ∷ [])
      (4 ∷ []) (3 ∷ []) (repeat 32 7) "t" "phone" 1 5 (some counted) (refl, refl, refl, refl) refl
      refl (λ m. refl) refl (λ k pt ad. omega arith) 4 6 (9 ∷ []) record_bytes refl (omega arith)
      (omega arith) sealed_record
