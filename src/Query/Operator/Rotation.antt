-- ===== src/Query/Operator/Rotation.antt =====
-- query/index.ts: consecutive choices of an endpoint, between two health checks.
use native.Mathlib.Nat.{suc-mod, mod-eq_of_lt, mod_self, mod-lt, mod-add-mod}
use cosmad.Prelude.{
  ℕ, zero, suc, ◌+◌, ◌-◌, ◌%◌, ◌<◌, ◌≤◌, ◌≡◌, ◌≢◌, refl, sym, ap, subst, ◌∙◌, String, Option, some,
  List, [], ◌∷◌, ◌++◌, map, All, length, get_elem?, take, drop, arith, eq_iff,
}
use cosmad.Query.Operator.{Endpoints, pick}

-- The choices of k consecutive calls.
unfoldable pub picks : ℕ → Endpoints → List (Option String)
unfolding pick
picks zero e = []
picks (suc k) e = let (choice, next) = pick e in choice ∷ picks k next

module _ {ℓ} {A : Type ℓ} where
  -- One step into a list at a position inside it.
  pub drop_at :
      (xs : List A) (r : ℕ)
      → r < length xs
      → (x : A) × (get_elem? xs r ≡ some x) × (drop r xs ≡ x ∷ drop (suc r) xs)
  drop_at [] r h = absurd (omega arith)
  drop_at (x ∷ xs) zero h = (x, refl, refl)
  drop_at (x ∷ xs) (suc r) h = drop_at xs r (omega arith)

  take_all : (xs : List A) → take (length xs) xs ≡ xs
  take_all [] = refl
  take_all (x ∷ xs) = ap (◌∷◌ x) (take_all xs)

  length-drop_fits : (xs : List A) (r : ℕ) → r ≤ length xs → length (drop r xs) ≡ length xs - r
  length-drop_fits xs zero h = omega arith
  length-drop_fits [] (suc r) h = omega arith
  length-drop_fits (x ∷ xs) (suc r) h = omega (arith, length-drop_fits xs r (omega arith))

pub All-get {ℓ κ} :
    {A : Type ℓ} (P : A → Type κ) (xs : List A) (r : ℕ) (x : A)
    → All P xs
    → get_elem? xs r ≡ some x
    → P x
All-get P [] r x a h = absurd (ground arith)
All-get P (y ∷ xs) zero x a h = subst P (ground (arith, h)) a.0
All-get P (y ∷ xs) (suc r) x a h = All-get P xs r x a.1 h

-- From an index, as many steps on as lead to the end of the list.
wraps : (n i : ℕ) → i % n < n → (i + (n - i % n)) % n ≡ 0
wraps n i h =
    let a : i % n + (n - i % n) ≡ n = omega (arith, h) in
    sym (mod-add-mod i n (n - i % n)) ∙ ap (λ k. k % n) a ∙ mod_self n

map-append {ℓ κ} :
    {A : Type ℓ} {B : Type κ} (f : A → B) (xs ys : List A) → map f (xs ++ ys) ≡ map f xs ++ map f ys
map-append f [] ys = refl
map-append f (x ∷ xs) ys = ap (◌∷◌ (f x)) (map-append f xs ys)

module _ (e : Endpoints) (v : String) (vs : List String) (given : e.health.healthy ≡ v ∷ vs)
    (named : All (λ u. u ≢ "") (v ∷ vs)) where
  from : ℕ → Endpoints
  from i = record e { index = i }

  pick-from :
      (i : ℕ) (u : String)
      → get_elem? (v ∷ vs) (i % suc (length vs)) ≡ some u
      → pick (from i) ≡ (some u, from (suc i))
  unfolding pick from
  pick-from i u h =
      let n = All-get (λ u. u ≢ "") (v ∷ vs) (i % suc (length vs)) u named h in
      ground (arith, given, h, eq_iff u "", n)

  picks-from :
      (k i : ℕ) (u : String)
      → get_elem? (v ∷ vs) (i % suc (length vs)) ≡ some u
      → picks (suc k) (from i) ≡ some u ∷ picks k (from (suc i))
  unfolding picks
  picks-from k i u h = rw (pick-from i u h)

  picks_walk :
      (k i r : ℕ)
      → i % suc (length vs) ≡ r
      → r + k ≤ suc (length vs)
      → picks k (from i) ≡ map some (take k (drop r (v ∷ vs)))
  picks_walk zero i r m h = unfold picks in refl
  picks_walk (suc zero) i r m h =
      let (u, at, rest) = drop_at (v ∷ vs) r (omega arith) in
      let first = picks-from 0 i u (subst (λ z. get_elem? (v ∷ vs) z ≡ some u) (sym m) at) in
      first ∙ rw (rest) (unfold picks in refl)
  picks_walk (suc (suc k)) i r m h =
      let (u, at, rest) = drop_at (v ∷ vs) r (omega arith) in
      let first = picks-from (suc k) i u (subst (λ z. get_elem? (v ∷ vs) z ≡ some u) (sym m) at) in
      let next : suc i % suc (length vs) ≡ suc r =
        suc-mod i (suc (length vs)) ∙ rw (m) (mod-eq_of_lt (omega (arith, h))) in
      let ih = picks_walk (suc k) (suc i) (suc r) next (omega (arith, h)) in
      first ∙ rw (rest) (ap (λ us. some u ∷ us) ih)

  picks-append : (a b i : ℕ) → picks (a + b) (from i) ≡ picks a (from i) ++ picks b (from (i + a))
  picks-append zero b i =
      let z : i + 0 ≡ i = omega arith in
      let y : 0 + b ≡ b = omega arith in rw (y, z) (unfold picks in refl)
  picks-append (suc a) b i =
      let (u, at, rest) = drop_at (v ∷ vs) (i % suc (length vs)) (mod-lt i (omega arith)) in
      let z : i + suc a ≡ suc i + a = omega arith in
      let y : suc a + b ≡ suc (a + b) = omega arith in
      rw (y, z, picks-from (a + b) i u at, picks-from a i u at)
        (ap (λ us. some u ∷ us) (picks-append a b (suc i)))

  rotation :
      (i : ℕ)
      → let r = i % suc (length vs) in
        picks (suc (length vs)) (from i) ≡ map some (drop r (v ∷ vs) ++ take r (v ∷ vs))
  rotation i =
      let n = suc (length vs) in
      let r = i % n in
      let inside : r < n = mod-lt i (omega arith) in
      let wrapped : (i + (n - r)) % n ≡ 0 = wraps n i inside in
      let one = picks_walk (n - r) i r refl (omega (arith, inside)) in
      let two = picks_walk r (i + (n - r)) 0 wrapped (omega (arith, inside)) in
      let sum : n ≡ (n - r) + r = omega (arith, inside) in
      ap (λ k. picks k (from i)) sum
      ∙ picks-append (n - r) r i
      ∙ ap (λ us. us ++ picks r (from (i + (n - r)))) one
      ∙ ap (λ us. map some (take (n - r) (drop r (v ∷ vs))) ++ us) two
      ∙ ap (λ k. map some (take k (drop r (v ∷ vs))) ++ map some (take r (v ∷ vs)))
          (sym (length-drop_fits (v ∷ vs) r (omega (arith, inside))))
      ∙ ap (λ us. map some us ++ map some (take r (v ∷ vs))) (take_all (drop r (v ∷ vs)))
      ∙ sym (map-append some (drop r (v ∷ vs)) (take r (v ∷ vs)))

rotation_of :
    (e : Endpoints) (hs : List String)
    → e.health.healthy ≡ hs
    → All (λ u. u ≢ "") hs
    → hs ≢ []
    → let start = e.index % length hs in
      picks (length hs) e ≡ map some (drop start hs ++ take start hs)
unfolding from
rotation_of e [] h a n = absurd (n refl)
rotation_of e (v ∷ vs) h a n = rotation e v vs h a e.index

-- As many consecutive choices as there are healthy endpoints, with no health check between them,
-- take each of them once, in the order of the list, from the one that the index points at round to
-- the one before it; for healthy endpoints with URLs that are not empty, and at least one of them.
pub picks-rotation :
    (e : Endpoints)
    → All (λ u. u ≢ "") e.health.healthy
    → e.health.healthy ≢ []
    → let n = length e.health.healthy in
      let start = e.index % n in
      picks n e ≡ map some (drop start e.health.healthy ++ take start e.health.healthy)
picks-rotation e named some_left = rotation_of e e.health.healthy refl named some_left
