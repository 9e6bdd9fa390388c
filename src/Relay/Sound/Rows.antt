-- ===== src/Relay/Sound/Rows.antt =====
-- The order of a mailbox's messages under the statements that delete and append rows.
use noknowledge.Base.{
  ℕ, ◌+◌, String, Bool, true, false, List, [], ◌∷◌, ◌++◌, arith, eq_String, eq_law, if◌then◌else◌,
  delete, All, All-append, All-map,
}
use noknowledge.Relay.Schema.{Message}
use noknowledge.Relay.Sound.{Ascending, Below}

pub All-delete {ℓ κ} :
    {A : Type ℓ} (P : A → Type κ) (p : A → Bool) (xs : List A) → All P xs → All P (delete p xs)
unfolding delete
All-delete P p [] h = tt
All-delete P p (x ∷ xs) h =
    elim (p x) as (λ b. All P (if b then delete p xs else x ∷ delete p xs)) [
      | true ↦ All-delete P p xs h.1
      | false ↦ (h.0, All-delete P p xs h.1)
    ]

pub Ascending-delete :
    (p : Message → Bool) (rs : List Message) → Ascending rs → Ascending (delete p rs)
unfolding delete
Ascending-delete p [] h = tt
Ascending-delete p (r ∷ rs) h =
    elim (p r) as (λ b. Ascending (if b then delete p rs else r ∷ delete p rs)) [
      | true ↦ Ascending-delete p rs h.1
      | false ↦ (All-delete _ p rs h.0, Ascending-delete p rs h.1)
    ]

pub Below-suc :
    (id : String) (n : ℕ) (rs : List Message) → All (Below id n) rs → All (Below id (n + 1)) rs
Below-suc id n rs h = All-map (Below id n) (Below id (n + 1)) rs (λ r k e. omega (arith, k e)) h

-- A row whose number is above those of its mailbox may be appended.
pub Ascending-append :
    (rs : List Message) (r : Message)
    → Ascending rs
    → All (Below r.mailbox_id r.seq) rs
    → Ascending (rs ++ r ∷ [])
Ascending-append [] r h k = (tt, tt)
Ascending-append (x ∷ xs) r h k = (
  All-append _ xs (r ∷ []) h.0 (
    (λ e. k.0 (ground (arith, eq_law r.mailbox_id x.mailbox_id, eq_law x.mailbox_id r.mailbox_id))),
    tt,
  ),
  Ascending-append xs r h.1 k.1,
)
