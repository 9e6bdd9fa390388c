-- ===== src/Core/Channel/Frames.antt =====
-- noknowledge/core/device_channel.py: records that are framed and parsed.
use noknowledge.Base.{
  ℕ, ◌<◌, Bytes, some, eq_String, eq_ℕ, eq_Bytes, length, ◌≡◌, arith, length-append, eq_self,
}
use noknowledge.Base.Outcome.{ok}
use noknowledge.Crypto.Primitives.{Primitives}
use noknowledge.Base.Slices.{to_bytes4, take-append, drop-append, from_bytes-to_bytes4}
use noknowledge.Core.Channel.{
  DeviceHeader, DevicePrimitives, magic, is_device_record, frame_bytes, byte_at, frame,
  parse_record,
}

module _ (p : Primitives) (d : DevicePrimitives) where
  pub parse_record-frame :
      (kind : ℕ) (header : DeviceHeader) (payload : Bytes)
      → d.loads (d.dumps header) ≡ some (some header)
      → 0 < length (d.dumps header)
      → length (d.dumps header) < 4294967296
      → parse_record p d (frame p d kind header payload) ≡ ok (kind, header, payload)
  unfolding parse_record frame frame_bytes to_bytes4 byte_at is_device_record
  parse_record-frame kind header payload h lo hi =
      let hb = d.dumps header in
      ground (
        arith,
        from_bytes-to_bytes4 (length hb) hi,
        take-append hb payload,
        drop-append hb payload,
        length-append hb payload,
        h,
        eq_self magic,
      )
