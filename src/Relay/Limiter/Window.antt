-- ===== src/Relay/Limiter/Window.antt =====
-- The limiter against its specification: a call is granted exactly if fewer than `limit` calls of
-- the same key were granted in the window that ends with it.
use noknowledge.Base.{
  ℕ, ◌+◌, ◌≤◌, String, ◌≡◌, refl, ◌≢◌, ap, Bool, true, false, ◌&&◌, List, [], ◌∷◌, ◌++◌, arith,
  ◌==◌, eq_String, eq_ℕ, eq_law, ltb, leb, if◌then◌else◌, length, count, count-append, All,
  All-append, inl, inr, Bool-cases, if_intro,
}
use noknowledge.Base.Int.{pos}
use noknowledge.Relay.Limiter.{Limiter, new_limiter, expire, put_events, allow, answers}

abbrev pub recent : ℕ → ℕ → ℕ → Bool
recent window current t = leb current (t + window)

abbrev granted_to : String → ℕ → ℕ → String × ℕ → Bool
granted_to key window current (k, t) = k == key && recent window current t

-- The specification keeps every granted call for ever.
pub spec_answers : ℕ → ℕ → List (String × ℕ) → List (String × ℕ) → List Bool
spec_answers limit window [] history = []
spec_answers limit window ((key, current) ∷ calls) history =
    let free = ltb (count (granted_to key window current) history) limit in
    free
    ∷ spec_answers limit window calls (if free then history ++ (key, current) ∷ [] else history)

-- Times that do not run backwards, from `t` on
abbrev pub InOrder : ℕ → List (String × ℕ) → Type 0
InOrder t [] = Unit
InOrder t ((key, current) ∷ calls) = (t ≤ current) × InOrder current calls

abbrev Ordered : List ℕ → Type 0
Ordered [] = Unit
Ordered (t ∷ ts) = All (λ (u : ℕ). t ≤ u) ts × Ordered ts

module _ (window current : ℕ) where
  count-expire :
      (t : ℕ) (ts : List ℕ)
      → current ≤ t
      → count (recent window t) (expire window current ts) ≡ count (recent window t) ts
  unfolding expire count
  count-expire t [] h = refl
  count-expire t (x ∷ xs) h = ground (arith, count-expire t xs h)

  All-recent :
      (t : ℕ) (ts : List ℕ)
      → current ≤ t + window
      → All (λ (u : ℕ). t ≤ u) ts
      → count (recent window current) ts ≡ length ts
  unfolding count
  All-recent t [] h k = refl
  All-recent t (x ∷ xs) h k = ground (arith, All-recent t xs h k.1)

  -- What the loop leaves is recent, if the deque is in order.
  expire-recent :
      (ts : List ℕ)
      → Ordered ts
      → count (recent window current) (expire window current ts) ≡ length (expire window current ts)
  unfolding expire count
  expire-recent [] h = refl
  expire-recent (x ∷ xs) h = ground (arith, expire-recent xs h.1, All-recent x xs)

  expire-Ordered : (ts : List ℕ) → Ordered ts → Ordered (expire window current ts)
  unfolding expire
  expire-Ordered [] h = tt
  expire-Ordered (x ∷ xs) h = ground (arith, expire-Ordered xs h.1)

  expire-All :
      (ts : List ℕ)
      → All (λ (u : ℕ). u ≤ current) ts
      → All (λ (u : ℕ). u ≤ current) (expire window current ts)
  unfolding expire
  expire-All [] h = tt
  expire-All (x ∷ xs) h = ground (arith, expire-All xs h.1)

Ordered-append :
    (t : ℕ) (ts : List ℕ) → Ordered ts → All (λ (u : ℕ). u ≤ t) ts → Ordered (ts ++ t ∷ [])
Ordered-append t [] h k = (tt, tt)
Ordered-append t (x ∷ xs) h k =
    (All-append _ xs (t ∷ []) h.0 (k.0, tt), Ordered-append t xs h.1 k.1)

All-le : (a b : ℕ) (ts : List ℕ) → a ≤ b → All (λ (u : ℕ). u ≤ a) ts → All (λ (u : ℕ). u ≤ b) ts
All-le a b [] h k = tt
All-le a b (x ∷ xs) h k = (omega arith, All-le a b xs h k.1)

-- The deques hold what of the history can still matter at `now` or later.
record Agrees (l : Limiter) (history : List (String × ℕ)) (now : ℕ) : Type 0 where
  same :
      (key : String) (t : ℕ)
      → now ≤ t
      → count (granted_to key l.window t) history ≡ count (recent l.window t) (l.events key)
  ordered : (key : String) → Ordered (l.events key)
  past : (key : String) → All (λ (u : ℕ). u ≤ now) (l.events key)

module _ (l : Limiter) (history : List (String × ℕ)) (now current : ℕ) (key : String)
    (h : Agrees l history now) (later : now ≤ current) where
  abbrev kept : List ℕ
  kept = expire l.window current (l.events key)

  abbrev in_window : ℕ
  in_window = count (granted_to key l.window current) history

  length-kept : length kept ≡ in_window
  length-kept = omega (
    arith,
    h.same key current later,
    count-expire l.window current current (l.events key) (omega arith),
    expire-recent l.window current (l.events key) (h.ordered key),
  )

  kept_past : All (λ (u : ℕ). u ≤ current) kept
  kept_past = expire-All l.window current (l.events key) (All-le now current _ later (h.past key))

  refused-Agrees : Agrees (put_events key kept l) history current
  refused-Agrees = record {
    same = λ k t after. ground (
      arith,
      eq_law k key,
      h.same k t (omega arith),
      count-expire l.window current t (l.events key) after,
    );
    ordered = λ k.
        if_intro Ordered (k == key) (expire-Ordered l.window current (l.events key) (h.ordered key))
          (h.ordered k);
    past = λ k.
        if_intro (All (λ (u : ℕ). u ≤ current)) (k == key) kept_past
          (All-le now current _ later (h.past k));
  }

  granted-Agrees :
      Agrees (put_events key (kept ++ current ∷ []) l) (history ++ (key, current) ∷ []) current
  granted-Agrees = record {
    same = λ k t after.
        unfold count in
        ground (
          arith,
          eq_law k key,
          eq_law key k,
          h.same k t (omega arith),
          count-expire l.window current t (l.events key) after,
          count-append (granted_to k l.window t) history ((key, current) ∷ []),
          count-append (recent l.window t) kept (current ∷ []),
        );
    ordered = λ k.
        if_intro Ordered (k == key)
          (Ordered-append current kept
            (expire-Ordered l.window current (l.events key) (h.ordered key)) kept_past)
          (h.ordered k);
    past = λ k.
        if_intro (All (λ (u : ℕ). u ≤ current)) (k == key)
          (All-append _ kept (current ∷ []) kept_past (omega arith, tt))
          (All-le now current _ later (h.past k));
  }

answers-agree :
    (l : Limiter) (history calls : List (String × ℕ)) (now : ℕ)
    → l.limit ≢ 0
    → Agrees l history now
    → InOrder now calls
    → answers calls l ≡ spec_answers l.limit l.window calls history
unfolding answers spec_answers
answers-agree l history [] now positive h o = refl
answers-agree l history ((key, current) ∷ calls) now positive h (later, o) =
    let size = length-kept l history now current key h later in
    elim (Bool-cases (ltb (count (granted_to key l.window current) history) l.limit)) [
      | inl free ↦
          let rest =
            answers-agree
              (put_events key (kept l history now current key h later ++ current ∷ []) l)
              (history ++ (key, current) ∷ []) calls current positive
              (granted-Agrees l history now current key h later) o in
          let step : allow key current l
              ≡ (true, put_events key (kept l history now current key h later ++ current ∷ []) l) =
            ground arith in
          rw (step, free) (ap (◌∷◌ true) rest)
      | inr full ↦
          let rest =
            answers-agree (put_events key (kept l history now current key h later) l) history calls
              current positive (refused-Agrees l history now current key h later) o in
          let step : allow key current l
              ≡ (false, put_events key (kept l history now current key h later) l) =
            ground arith in
          rw (step, full) (ap (◌∷◌ false) rest)
    ]

-- On a fresh limiter with a positive limit, and calls whose times do not run backwards, every call
-- is granted exactly if fewer than `limit` earlier calls of its own key were granted within
-- `window` before it, the window's first instant included; the calls of other keys make no
-- difference, and expired times, which the limiter forgets, would make none.
pub answers-eq-spec :
    (limit window : ℕ) (calls : List (String × ℕ))
    → limit ≢ 0
    → InOrder 0 calls
    → answers calls (new_limiter (pos limit) window) ≡ spec_answers limit window calls []
unfolding new_limiter count
answers-eq-spec limit window calls positive o =
    answers-agree _ [] calls 0 positive
      (record { same = λ key t _. refl; ordered = λ key. tt; past = λ key. tt }) o
