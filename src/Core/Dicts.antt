-- ===== src/Core/Dicts.antt =====
-- Python dicts with texts as keys, as the client keeps them in its state: a key that is set again
-- keeps its place.
use noknowledge.Base.{
  String, Bool, true, false, Option, none, some, List, [], ◌∷◌, ◌==◌, eq_String, if◌then◌else◌, ◌≡◌,
  refl, arith, eq_law, eq_self, inl, inr, Bool-cases, ap,
}

abbrev pub Dict : Type 0 → Type 0
Dict V = List (String × V)

module _ {V : Type 0} where
  -- `d.get(key)`
  unfoldable pub get_key : String → Dict V → Option V
  get_key key [] = none
  get_key key ((k, v) ∷ d) = if k == key then some v else get_key key d

  -- `d[key] = value`
  unfoldable pub set_key : String → V → Dict V → Dict V
  set_key key value [] = (key, value) ∷ []
  set_key key value ((k, v) ∷ d) =
      let rest = set_key key value d in if k == key then (k, value) ∷ d else (k, v) ∷ rest

  -- `d.pop(key, None)`; a key stands once.
  unfoldable pub pop_key : String → Dict V → Dict V
  pop_key key [] = []
  pop_key key ((k, v) ∷ d) = let rest = pop_key key d in if k == key then rest else (k, v) ∷ rest

  -- `key in d`
  abbrev pub has : String → Dict V → Bool
  has key d = elim (get_key key d) [ none ↦ false | some _ ↦ true ]

  pub get_key-set_key :
      (key : String) (value : V) (d : Dict V) → get_key key (set_key key value d) ≡ some value
  unfolding get_key set_key
  get_key-set_key key value [] = ground (arith, eq_self key)
  get_key-set_key key value ((k, v) ∷ d) = ground (arith, get_key-set_key key value d)

  pub get_key-set_key_other :
      (key other : String) (value : V) (d : Dict V)
      → (key == other) ≡ false
      → get_key other (set_key key value d) ≡ get_key other d
  unfolding get_key set_key
  get_key-set_key_other key other value [] h = ground arith
  get_key-set_key_other key other value ((k, v) ∷ d) h = elim (Bool-cases (k == key)) [
    | inl e ↦ ground (arith, ap (λ x. x == other) ((eq_law k key).0 e))
    | inr e ↦ ground (arith, get_key-set_key_other key other value d h)
  ]

  pub get_key-pop_key : (key : String) (d : Dict V) → get_key key (pop_key key d) ≡ none
  unfolding get_key pop_key
  get_key-pop_key key [] = refl
  get_key-pop_key key ((k, v) ∷ d) = ground (arith, get_key-pop_key key d)

  pub get_key-pop_key_other :
      (key other : String) (d : Dict V)
      → (key == other) ≡ false
      → get_key other (pop_key key d) ≡ get_key other d
  unfolding get_key pop_key
  get_key-pop_key_other key other [] h = refl
  get_key-pop_key_other key other ((k, v) ∷ d) h = elim (Bool-cases (k == key)) [
    | inl e ↦
        ground
          (arith, ap (λ x. x == other) ((eq_law k key).0 e), get_key-pop_key_other key other d h)
    | inr e ↦ ground (arith, get_key-pop_key_other key other d h)
  ]
