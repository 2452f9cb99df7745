-- ===== src/Dict.antt =====
-- The language's `Map` and `Set`: entries in the order of their first insertion. A later `set` of
-- a key that is present replaces its value and keeps its place.
use cosmad.Prelude.{
  String, ◌≡◌, refl, ◌↔◌, Bool, true, false, ◌&&◌, Option, none, some, List, [], ◌∷◌, ◌||◌, arith,
  str_eq, eq_iff, Bool-cases, inr, sym, subst, if◌then◌else◌, is_some, ◌⊎◌, inl, All, false,
}

pub record Eq {ℓ} (A : Type ℓ) : Type ℓ where
  pub beq : A → A → Bool
  pub beq_iff : (a b : A) → (beq a b ≡ true) ↔ (a ≡ b)

instance abbrev pub string_eq : Eq String
string_eq = record { beq = str_eq; beq_iff = eq_iff }

abbrev pub pair_beq : String × String → String × String → Bool
pair_beq (a, b) (c, d) = str_eq a c && str_eq b d

pub pair_beq_iff : (p q : String × String) → (pair_beq p q ≡ true) ↔ (p ≡ q)
pair_beq_iff (a, b) (c, d) = ground (arith, eq_iff a c, eq_iff b d)

instance abbrev pub pair_eq : Eq (String × String)
pair_eq = record { beq = pair_beq; beq_iff = pair_beq_iff }

abbrev pub Dict {ℓ κ} : Type ℓ → Type κ → Type (ℓ ⊔ κ)
Dict K V = List (K × V)

module _ {ℓ κ} {K : Type ℓ} {V : Type κ} ⦃e : Eq K⦄ where
  -- `map.get(k)`
  unfoldable pub get : K → Dict K V → Option V
  get k [] = none
  get k ((j, v) ∷ m) = let rest = get k m in if e.beq j k then some v else rest

  -- `map.has(k)`
  abbrev pub has : K → Dict K V → Bool
  has k m = is_some (get k m)

  -- `map.set(k, v)`
  unfoldable pub set : K → V → Dict K V → Dict K V
  set k v [] = (k, v) ∷ []
  set k v ((j, w) ∷ m) = let rest = set k v m in if e.beq j k then (j, v) ∷ m else (j, w) ∷ rest

  -- `map.delete(k)`
  unfoldable pub delete : K → Dict K V → Dict K V
  delete k [] = []
  delete k ((j, w) ∷ m) = let rest = delete k m in if e.beq j k then rest else (j, w) ∷ rest

  -- `new Map(entries)`: each entry is set in turn.
  unfoldable pub of_entries : Dict K V → Dict K V → Dict K V
  unfolding set
  of_entries m [] = m
  of_entries m ((k, v) ∷ es) = of_entries (set k v m) es

  pub get-set :
      (k j : K) (v : V) (m : Dict K V) → get j (set k v m) ≡ (if e.beq k j then some v else get j m)
  unfolding get set
  get-set k j v [] = refl
  get-set k j v ((i, w) ∷ m) =
      ground (arith, e.beq_iff k j, e.beq_iff i k, e.beq_iff i j, get-set k j v m)

  pub get-delete :
      (k j : K) (m : Dict K V) → get j (delete k m) ≡ (if e.beq k j then none else get j m)
  unfolding get delete
  get-delete k j [] = ground arith
  get-delete k j ((i, w) ∷ m) =
      ground (arith, e.beq_iff k j, e.beq_iff i k, e.beq_iff i j, get-delete k j m)

module _ {K V : Type 0} ⦃e : Eq K⦄ where
  abbrev pub InEntries : K → V → Dict K V → Type 0
  InEntries k v [] = ⊥
  InEntries k v ((j, w) ∷ es) = ((j ≡ k) × (w ≡ v)) ⊎ InEntries k v es

  -- What a map of entries holds is one of the entries.
  pub get-of_entries-some :
      (k : K) (v : V) (m es : Dict K V)
      → get k (of_entries m es) ≡ some v
      → (get k m ≡ some v) ⊎ InEntries k v es
  unfolding of_entries
  get-of_entries-some k v m [] h = inl h
  get-of_entries-some k v m ((j, w) ∷ es) h =
      ground (arith, get-of_entries-some k v (set j w m) es h, get-set j k w m, e.beq_iff j k)

  set-none :
      (j k : K) (w : V) (m : Dict K V)
      → get k (set j w m) ≡ none
      → (e.beq j k ≡ false) × (get k m ≡ none)
  set-none j k w m h = ground (arith, get-set j k w m)

  -- A key that a map of entries lacks is the key of no entry.
  pub get-of_entries-none :
      (k : K) (m es : Dict K V)
      → get k (of_entries m es) ≡ none
      → (get k m ≡ none) × All (λ p. e.beq p.0 k ≡ false) es
  unfolding of_entries
  get-of_entries-none k m [] h = (h, tt)
  get-of_entries-none k m ((j, w) ∷ es) h =
      let (rest, others) = get-of_entries-none k (set j w m) es h in
      let (here, missing) = set-none j k w m rest in (missing, (here, others))

module _ {ℓ} {K : Type ℓ} ⦃e : Eq K⦄ where
  pub beq_refl : (k : K) → e.beq k k ≡ true
  beq_refl k = (e.beq_iff k k).1 refl

  -- `set.has(k)` of a set given by its elements.
  unfoldable pub contains : K → List K → Bool
  contains k [] = false
  contains k (j ∷ js) = e.beq j k || contains k js

module _ {ℓ κ μ} {K : Type ℓ} {V : Type κ} ⦃e : Eq K⦄ (P : K × V → Type μ) where
  pub All-set : (k : K) (v : V) (m : Dict K V) → P (k, v) → All P m → All P (set k v m)
  unfolding set
  All-set k v [] h a = (h, tt)
  All-set k v ((j, w) ∷ m) h a = elim (Bool-cases (e.beq j k)) [
    | inl b ↦ rw (b) (subst (λ i. P (i, v)) (sym ((e.beq_iff j k).0 b)) h, a.1)
    | inr b ↦ rw (b) (a.0, All-set k v m h a.1)
  ]
