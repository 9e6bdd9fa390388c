-- ===== src/Core/Channel/Opening.antt =====
-- noknowledge/core/device_channel.py: records that are sealed and opened.
use noknowledge.Base.{
  ℕ, ◌<◌, Bytes, String, true, Option, none, some, ◌∷◌, ◌++◌, ◌==◌, eq_String, eq_ℕ, eq_Bytes, take,
  drop, length, ◌≡◌, refl, ap, ◌∙◌, arith, length-append, eq_self, inl, inr, Option-cases,
  Bool-cases,
}
use noknowledge.Base.Outcome.{ok}
use noknowledge.Crypto.Primitives.{Primitives, Laws}
use noknowledge.Crypto.Aead.{encrypt, decrypt}
use noknowledge.Base.Slices.{take-append, drop-append}
use noknowledge.Core.Channel.{
  DeviceHeader, DevicePrimitives, frame, frame_bytes, transfer_key, item_key, unsigned,
  update_header, record_header, signed_header, seal_record, shown, or_nought, header_fields,
  open_payload, open_record,
}
use noknowledge.Core.Channel.Frames.{parse_record-frame}

-- What a caller adds to a header replaces no field that `open_record` reads.
abbrev pub Adds : Option DeviceHeader → Type 0
Adds none = Unit
Adds (some extra) =
    (extra.from ≡ none) × (extra.transfer ≡ none) × (extra.seq ≡ none) × (extra.eph ≡ none)

-- The fields that `open_record` reads are the ones that were given.
record_header-named :
    (p : Primitives) (d : DevicePrimitives) (ephemeral_private : Bytes) (now_ms : ℕ)
    (sender transfer_id : String) (seq : ℕ) (extra : Option DeviceHeader)
    → Adds extra
    → let header = record_header p d ephemeral_private now_ms sender transfer_id seq extra in
      (header.from ≡ some sender)
      × (header.transfer ≡ some transfer_id)
      × (header.seq ≡ some seq)
      × (header.eph ≡ some (p.b64e (d.agreement_public ephemeral_private)))
unfolding record_header update_header
record_header-named p d e now_ms sender transfer_id seq none h = (refl, refl, refl, refl)
record_header-named p d e now_ms sender transfer_id seq (some fields) (f, t, n, k) =
    (rw f refl, rw t refl, rw n refl, rw k refl)

-- A record as it is sealed: `signed` travels, and `shared` is what both devices agree on.
module _ (p : Primitives) (laws : Laws p) (d : DevicePrimitives)
    (ephemeral_private nonce recipient_sagree sender_sdev_private mine sender_sdev shared : Bytes)
    (transfer_id sender : String) (seq now_ms : ℕ) (extra : Option DeviceHeader) (adds : Adds extra)
    (agreed : p.exchange ephemeral_private recipient_sagree ≡ some shared)
    (agreed' : p.exchange mine (d.agreement_public ephemeral_private) ≡ some shared)
    (verifies : (m : Bytes) → d.verify sender_sdev (d.sign sender_sdev_private m) m ≡ true)
    (twelve : length nonce ≡ 12)
    (tagged : (key plaintext ad : Bytes) → 0 < length (p.seal key nonce plaintext ad)) where
  abbrev signed : DeviceHeader
  signed =
      signed_header p d sender_sdev_private ephemeral_private now_ms sender transfer_id seq extra

  signed-named :
      (signed.from ≡ some sender)
      × (signed.transfer ≡ some transfer_id)
      × (signed.seq ≡ some seq)
      × (signed.eph ≡ some (p.b64e (d.agreement_public ephemeral_private)))
      × (signed.sig ≡ some (p.b64e (d.sign sender_sdev_private (d.dumps (unsigned p d signed)))))
  unfolding signed_header unsigned
  signed-named =
      let (f, t, n, k) =
        record_header-named p d ephemeral_private now_ms sender transfer_id seq extra adds in
      (f, t, n, k, refl)

  signed-fields :
      header_fields p d signed
      ≡ some (
        d.sign sender_sdev_private (d.dumps (unsigned p d signed)),
        d.agreement_public ephemeral_private,
        transfer_id,
        seq,
      )
  unfolding header_fields or_nought
  signed-fields =
      let (named, within, numbered, eph, sig) = signed-named in
      ground (
        arith,
        within,
        numbered,
        eph,
        sig,
        laws.decodes (d.agreement_public ephemeral_private),
        laws.decodes (d.sign sender_sdev_private (d.dumps (unsigned p d signed))),
      )

  -- What sealing makes.
  sealed :
      (kind : ℕ) (plaintext blob : Bytes)
      → seal_record p d ephemeral_private nonce now_ms kind plaintext recipient_sagree sender
          sender_sdev_private transfer_id seq extra
        ≡ some blob
      → (key : Bytes) × (item_key p d (transfer_key p d shared transfer_id) seq ≡ some key)
        × (length key ≡ 32)
        × (blob ≡ frame p d kind signed (nonce ++ p.seal key nonce plaintext (d.dumps signed)))
  unfolding seal_record encrypt
  sealed kind plaintext blob h =
      elim (Option-cases (item_key p d (transfer_key p d shared transfer_id) seq)) [
        | inl e ↦ ground (arith, agreed, h)
        | inr (key, e) ↦ elim (Bool-cases (length key == 32)) [
          | inl l ↦ (key, e, ground (arith, l), ground (arith, agreed, h))
          | inr l ↦ ground (arith, agreed, h)
        ]
      ]

  opened_payload :
      (plaintext key : Bytes)
      → item_key p d (transfer_key p d shared transfer_id) seq ≡ some key
      → length key ≡ 32
      → open_payload p d mine signed
          (nonce ++ p.seal key nonce plaintext (d.dumps signed))
          (d.agreement_public ephemeral_private)
          transfer_id
          seq
        ≡ ok plaintext
  unfolding open_payload decrypt
  opened_payload plaintext key k l =
      let c = p.seal key nonce plaintext (d.dumps signed) in
      ground (
        arith,
        agreed',
        k,
        l,
        twelve,
        tagged key plaintext (d.dumps signed),
        length-append nonce c,
        ap (λ n. take n (nonce ++ c)) twelve,
        ap (λ n. drop n (nonce ++ c)) twelve,
        take-append nonce c,
        drop-append nonce c,
        laws.opens key nonce plaintext (d.dumps signed),
      )

  open_framed :
      (kind : ℕ) (plaintext key : Bytes)
      → d.loads (d.dumps signed) ≡ some (some signed)
      → 0 < length (d.dumps signed)
      → length (d.dumps signed) < 4294967296
      → item_key p d (transfer_key p d shared transfer_id) seq ≡ some key
      → length key ≡ 32
      → open_record p d
          (frame p d kind signed (nonce ++ p.seal key nonce plaintext (d.dumps signed)))
          mine
          sender_sdev
          sender
        ≡ ok (kind, signed, plaintext)
  unfolding open_record shown
  open_framed kind plaintext key json lo hi k l = ground (
    arith,
    parse_record-frame p d kind signed (nonce ++ p.seal key nonce plaintext (d.dumps signed)) json
        lo hi,
    signed-named.0,
    eq_self sender,
    signed-fields,
    verifies (d.dumps (unsigned p d signed)),
    opened_payload plaintext key k l,
  )

  -- A record that was sealed for a device, by a sender whose key verifies what it signs, with no
  -- extra field in place of the sender, the transfer, the number or the ephemeral key, opens there,
  -- where JSON reads the signed header back, to its kind, its header and its plaintext. It still does
  -- when the byte of its kind is replaced: then it opens as a record of that kind.
  pub open_record-seal_record :
      (kind other : ℕ) (plaintext blob : Bytes)
      → d.loads (d.dumps signed) ≡ some (some signed)
      → 0 < length (d.dumps signed)
      → length (d.dumps signed) < 4294967296
      → seal_record p d ephemeral_private nonce now_ms kind plaintext recipient_sagree sender
          sender_sdev_private transfer_id seq extra
        ≡ some blob
      → (open_record p d blob mine sender_sdev sender ≡ ok (kind, signed, plaintext))
        × (open_record p d (take 5 blob ++ other ∷ drop 6 blob) mine sender_sdev sender
            ≡ ok (other, signed, plaintext))
  unfolding frame frame_bytes
  open_record-seal_record kind other plaintext blob json lo hi h =
      let (key, k, l, e) = sealed kind plaintext blob h in
      (
        ap (λ b. open_record p d b mine sender_sdev sender) e
            ∙ open_framed kind plaintext key json lo hi k l,
        ap (λ b. open_record p d (take 5 b ++ other ∷ drop 6 b) mine sender_sdev sender) e
            ∙ open_framed other plaintext key json lo hi k l,
      )
