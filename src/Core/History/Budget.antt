-- ===== src/Core/History/Budget.antt =====
-- noknowledge/core/history.py: what the attachments of a bundle take, and which they are.
use noknowledge.Base.{
  ℕ, ◌+◌, ◌≤◌, String, Bytes, Bool, true, false, ◌&&◌, ◌||◌, not, Option, List, [], ◌∷◌, ◌++◌, ◌==◌,
  eq_String, eq_ℕ, length, length-append, ◌≡◌, refl, ap, ◌∙◌, arith, inl, inr, Option-cases, eq_law,
}
use noknowledge.Local.Schema.{LocalStore}
use noknowledge.Local.Cache.{get_local_blob}
use noknowledge.Core.History.Items.{MessageItem}
use noknowledge.Core.History.Build.{
  Reason, not_held, over_budget, Collected, nothing, contains, add_chunk, add_chunks,
  collect_chunks,
}

-- The bytes of the chunks.
unfoldable pub total : List (String × Bytes) → ℕ
total [] = 0
total ((_, ct) ∷ cs) = length ct + total cs

total-append : (xs ys : List (String × Bytes)) → total (xs ++ ys) ≡ total xs + total ys
unfolding total
total-append [] ys = omega arith
total-append ((_, ct) ∷ xs) ys = omega (arith, total-append xs ys)

-- An id is among chunks, or among what was skipped.
unfoldable pub named : {A : Type 0} → String → List (String × A) → Bool
named id [] = false
named id ((k, _) ∷ rows) = id == k || named id rows

named-append :
    {A : Type 0} (id : String) (xs ys : List (String × A))
    → named id (xs ++ ys) ≡ (named id xs || named id ys)
unfolding named
named-append id [] ys = refl
named-append id ((k, _) ∷ xs) ys = ground (arith, named-append id xs ys)

-- What is used is what the chunks take, within the budget; the ids that were met are those in the
-- bundle and those among the skipped.
abbrev pub Accounted : ℕ → Collected → Type 0
Accounted budget_bytes c =
    (total c.chunks ≡ c.used)
    × (c.used ≤ budget_bytes)
    × (length c.seen ≡ length c.chunks + length c.skipped)
    × ((id : String) → (named id c.chunks || named id c.skipped) ≡ contains id c.seen)

add_chunk-Accounted :
    (store : LocalStore) (budget_bytes : ℕ) (chunk_id : String) (c : Collected)
    → Accounted budget_bytes c
    → Accounted budget_bytes (add_chunk store budget_bytes chunk_id c)
unfolding add_chunk total named contains
add_chunk-Accounted store budget_bytes chunk_id c (t, u, l, n) =
    elim (Option-cases (get_local_blob chunk_id store)) [
      | inl e ↦
          let row : List (String × Reason) = (chunk_id, not_held) ∷ [] in
          (
            ground (arith, e, t),
            ground (arith, e, u),
            ground (arith, e, l, length-append c.skipped row),
            λ id. ground (arith, e, n id, named-append id c.skipped row),
          )
      | inr (ct, e) ↦
          let row : List (String × Reason) = (chunk_id, over_budget) ∷ [] in
          let chunk : List (String × Bytes) = (chunk_id, ct) ∷ [] in
          (
            ground (arith, e, t, total-append c.chunks chunk),
            ground (arith, e, u),
            ground (arith, e, l, length-append c.skipped row, length-append c.chunks chunk),
            λ id.
                ground
                  (arith, e, n id, named-append id c.skipped row, named-append id c.chunks chunk),
          )
    ]

-- An id is the one of an attachment, which has some text.
unfoldable pub listed : String → List String → Bool
listed id ids = not (id == "") && contains id ids

contains-add_chunk :
    (store : LocalStore) (budget_bytes : ℕ) (id chunk_id : String) (c : Collected)
    → contains id (add_chunk store budget_bytes chunk_id c).seen
      ≡ (contains id c.seen || (not (chunk_id == "") && id == chunk_id))
unfolding add_chunk contains
contains-add_chunk store budget_bytes id chunk_id c =
    elim (Option-cases (get_local_blob chunk_id store)) [
      | inl e ↦ ground (arith, e, eq_law id chunk_id, seen)
      | inr (ct, e) ↦ ground (arith, e, eq_law id chunk_id, seen)
    ]
  where
    seen : (id == chunk_id) ≡ true → contains id c.seen ≡ contains chunk_id c.seen
    seen k = ap (λ x. contains x c.seen) ((eq_law id chunk_id).0 k)

add_chunks-Accounted :
    (store : LocalStore) (budget_bytes : ℕ) (ids : List String) (c : Collected)
    → Accounted budget_bytes c
    → Accounted budget_bytes (add_chunks store budget_bytes ids c)
      × ((id : String)
          → contains id (add_chunks store budget_bytes ids c).seen
            ≡ (contains id c.seen || listed id ids))
unfolding add_chunks contains listed
add_chunks-Accounted store budget_bytes [] c h = (h, λ id. ground arith)
add_chunks-Accounted store budget_bytes (k ∷ ids) c h =
    let (h', s) =
      add_chunks-Accounted store budget_bytes ids (add_chunk store budget_bytes k c)
        (add_chunk-Accounted store budget_bytes k c h) in
    (
      h',
      λ id.
          ground
            (arith, s id, contains-add_chunk store budget_bytes id k c, eq_law id k, empty id k),
    )
  where
    empty : (id k : String) → (id == k) ≡ true → (id == "") ≡ (k == "")
    empty id k e = ap (λ x. x == "") ((eq_law id k).0 e)

-- Some item of a bundle names the chunk.
unfoldable pub wanted : (Option String → List String) → String → List MessageItem → Bool
wanted chunk_ids id [] = false
wanted chunk_ids id (item ∷ items) = listed id (chunk_ids item.body) || wanted chunk_ids id items

collect-Accounted :
    (chunk_ids : Option String → List String) (store : LocalStore) (budget_bytes : ℕ)
    (items : List MessageItem) (c : Collected)
    → Accounted budget_bytes c
    → Accounted budget_bytes (collect_chunks chunk_ids store budget_bytes items c)
      × ((id : String)
          → contains id (collect_chunks chunk_ids store budget_bytes items c).seen
            ≡ (contains id c.seen || wanted chunk_ids id items))
unfolding collect_chunks wanted
collect-Accounted chunk_ids store budget_bytes [] c h = (h, λ id. ground arith)
collect-Accounted chunk_ids store budget_bytes (item ∷ items) c h =
    let (h', s) = add_chunks-Accounted store budget_bytes (chunk_ids item.body) c h in
    let (h'', s') =
      collect-Accounted chunk_ids store budget_bytes items
        (add_chunks store budget_bytes (chunk_ids item.body) c) h' in
    (h'', λ id. ground (arith, s id, s' id))

-- The attachments that are collected for a bundle take as many bytes as are counted, never more
-- than the budget. The chunks that the messages of the bundle name, by an id that is not empty, are
-- those in the bundle and those among the skipped, no others, and these are as many as the ids met.
pub collect_chunks-within :
    (chunk_ids : Option String → List String) (store : LocalStore) (budget_bytes : ℕ)
    (items : List MessageItem)
    → let c = collect_chunks chunk_ids store budget_bytes items nothing in
      (total c.chunks ≡ c.used)
      × (c.used ≤ budget_bytes)
      × (length c.seen ≡ length c.chunks + length c.skipped)
      × ((id : String) → (named id c.chunks || named id c.skipped) ≡ wanted chunk_ids id items)
unfolding total named contains
collect_chunks-within chunk_ids store budget_bytes items =
    let ((t, u, l, n), s) =
      collect-Accounted chunk_ids store budget_bytes items nothing
        (refl, omega arith, refl, λ id. refl) in
    (t, u, l, λ id. n id ∙ s id)
