-- ===== src/Crypto/Ratchet/Saved.antt =====
-- noknowledge/crypto/ratchet.py: `RatchetState.to_dict` and `from_dict`.
use noknowledge.Base.{
  ℕ, Bytes, ◌≡◌, refl, Option, none, some, List, [], ◌∷◌, map, arith, ◌==◌, eq_Bytes, if◌then◌else◌,
  ◌≢◌,
}
use noknowledge.Base.Int.{ℤ}
use noknowledge.Base.Outcome.{◌>>=?◌}
use noknowledge.Crypto.Primitives.{Primitives, Laws}
use noknowledge.Crypto.Ratchet.{RatchetState, SkippedKey}

-- The JSON object. An absent count reads as 0 and an absent table as empty: the fields here are
-- those that `to_dict` writes, all of them.
pub record Saved : Type 0 where
  pub rk : Bytes
  pub cks : Option Bytes
  pub ckr : Option Bytes
  pub dhs_priv : Option Bytes
  pub dhs_pub : Option Bytes
  pub dhr : Option Bytes
  pub ns : ℕ
  pub nr : ℕ
  pub pn : ℕ
  pub skipped : List ((Bytes × ℤ) × Bytes)

-- `b64e(b) if b else None`: no bytes are saved as nothing.
unfoldable pub save_bytes : Primitives → Option Bytes → Option Bytes
save_bytes p none = none
save_bytes p (some []) = none
save_bytes p (some (b ∷ bs)) = some (p.b64e (b ∷ bs))

unfoldable pub to_dict : Primitives → RatchetState → Saved
unfolding save_bytes
to_dict p s = record {
  rk = p.b64e s.root_key;
  cks = save_bytes p s.sending_chain;
  ckr = save_bytes p s.receiving_chain;
  dhs_priv = save_bytes p s.dh_self_private;
  dhs_pub = save_bytes p s.dh_self_public;
  dhr = save_bytes p s.dh_remote;
  ns = s.send_count;
  nr = s.recv_count;
  pn = s.prev_send_count;
  skipped = map (λ e. ((e.dh, e.number), p.b64e e.key)) s.skipped;
}

-- `b64d(text) if text else None`; `none` is the error of `b64d`.
unfoldable pub load_bytes : Primitives → Option Bytes → Option (Option Bytes)
load_bytes p none = some none
load_bytes p (some text) =
    if text == [] then some none else elim (p.b64d text) [ none ↦ none | some b ↦ some (some b) ]

unfoldable pub load_skipped : Primitives → List ((Bytes × ℤ) × Bytes) → Option (List SkippedKey)
load_skipped p [] = some []
load_skipped p (((dh, number), text) ∷ rows) =
    let rest = load_skipped p rows in
    elim (p.b64d text) [
      | none ↦ none
      | some key ↦ elim rest [
        | none ↦ none
        | some es ↦ some (record { dh = dh; number = number; key = key } ∷ es)
      ]
    ]

unfoldable pub from_dict : Primitives → Saved → Option RatchetState
unfolding load_bytes load_skipped
from_dict p d = p.b64d d.rk >>=? λ root_key. load_bytes p d.cks >>=? λ sending_chain.
    load_bytes p d.ckr >>=? λ receiving_chain. load_bytes p d.dhs_priv >>=? λ dh_self_private.
    load_bytes p d.dhs_pub >>=? λ dh_self_public. load_bytes p d.dhr >>=? λ dh_remote.
    load_skipped p d.skipped >>=? λ skipped. some (record {
      root_key = root_key;
      sending_chain = sending_chain;
      receiving_chain = receiving_chain;
      dh_self_private = dh_self_private;
      dh_self_public = dh_self_public;
      dh_remote = dh_remote;
      send_count = d.ns;
      recv_count = d.nr;
      prev_send_count = d.pn;
      skipped = skipped;
    })

module _ (p : Primitives) (laws : Laws p) where
  load-save_bytes : (o : Option Bytes) → o ≢ some [] → load_bytes p (save_bytes p o) ≡ some o
  unfolding load_bytes save_bytes
  load-save_bytes none h = refl
  load-save_bytes (some []) h = ground arith
  load-save_bytes (some (b ∷ bs)) h = rw (laws.not_empty b bs, laws.decodes (b ∷ bs))

  load-save_skipped :
      (es : List SkippedKey)
      → load_skipped p (map (λ e. ((e.dh, e.number), p.b64e e.key)) es) ≡ some es
  unfolding load_skipped
  load-save_skipped [] = refl
  load-save_skipped (e ∷ es) = rw (laws.decodes e.key, load-save_skipped es)

  -- A session that is saved and read back is the same session, if none of its keys is empty.
  pub from_dict-to_dict :
      (s : RatchetState)
      → s.sending_chain ≢ some []
      → s.receiving_chain ≢ some []
      → s.dh_self_private ≢ some []
      → s.dh_self_public ≢ some []
      → s.dh_remote ≢ some []
      → from_dict p (to_dict p s) ≡ some s
  unfolding from_dict to_dict
  from_dict-to_dict s h1 h2 h3 h4 h5 = rw (
    laws.decodes s.root_key,
    load-save_bytes s.sending_chain h1,
    load-save_bytes s.receiving_chain h2,
    load-save_bytes s.dh_self_private h3,
    load-save_bytes s.dh_self_public h4,
    load-save_bytes s.dh_remote h5,
    load-save_skipped s.skipped,
  )
