-- ===== src/Alert/Effect/Picked.antt =====
-- An open alert found by its type, in a set with distinct identifiers and one alert of the type.
use cosmad.Prelude.{
  ◌≤◌, ◌≡◌, ◌≢◌, refl, sym, ap, subst, String, false, ◌⊎◌, inl, inr, List, [], ◌∷◌, arith, str_eq,
  eq_iff, All, Option, none, some, map,
}
use cosmad.Tables.{Alert}
use cosmad.Dict.{
  string_eq, Dict, get, of_entries, InEntries, get-of_entries-some, get-of_entries-none,
}
use cosmad.Alert.Effect.{count, DistinctIds, PickedOut}
use cosmad.Alert.{open_by_type}

abbrev pub In : Alert → List Alert → Type 0
In a [] = ⊥
In a (b ∷ l) = (b ≡ a) ⊎ In a l

All_of_In {κ} : (P : Alert → Type κ) (a : Alert) (l : List Alert) → All P l → In a l → P a
All_of_In P a (b ∷ l) h (inl e) = rw (sym e) h.0
All_of_In P a (b ∷ l) h (inr m) = All_of_In P a l h.1 m
All_of_In P a [] h m = absurd m

count-pos : (a : Alert) (l : List Alert) → In a l → 1 ≤ count a.alert_type l
unfolding count
count-pos a [] m = absurd m
count-pos a (b ∷ l) (inl e) =
    ground (arith, eq_iff b.alert_type a.alert_type, ap (λ (x : Alert). x.alert_type) e)
count-pos a (b ∷ l) (inr m) = ground (arith, count-pos a l m)

picked_first :
    (a : Alert) (l : List Alert)
    → All (λ (b : Alert). b.alert_id ≢ a.alert_id) l
    → count a.alert_type l ≡ 0
    → PickedOut a l
unfolding count
picked_first a [] h z = tt
picked_first a (b ∷ l) h z =
    let same : b.alert_type ≢ a.alert_type =
      λ e. ground (arith, eq_iff b.alert_type a.alert_type) in
    ((λ e. absurd (h.0 e), λ e. absurd (same e)), picked_first a l h.1 (ground arith))

only_first :
    (a b : Alert) (l : List Alert)
    → b ≡ a
    → count a.alert_type (b ∷ l) ≤ 1
    → count b.alert_type l ≡ 0
unfolding count
only_first a b l e c =
    let t : b.alert_type ≡ a.alert_type = ap (λ (x : Alert). x.alert_type) e in
    rw t (ground (arith, eq_iff b.alert_type a.alert_type))

not_first :
    (a b : Alert) (l : List Alert)
    → In a l
    → count a.alert_type (b ∷ l) ≤ 1
    → (count a.alert_type l ≤ 1) × (b.alert_type ≢ a.alert_type)
unfolding count
not_first a b l m c =
    (ground arith, λ e. ground (arith, count-pos a l m, eq_iff b.alert_type a.alert_type))

pub picked_out :
    (a : Alert) (l : List Alert) → DistinctIds l → In a l → count a.alert_type l ≤ 1 → PickedOut a l
picked_out a [] d m c = tt
picked_out a (b ∷ l) d (inl e) c =
    subst (λ (x : Alert). PickedOut x (b ∷ l)) e
      ((λ x. refl, λ x. refl), picked_first b l d.0 (only_first a b l e c))
picked_out a (b ∷ l) d (inr m) c =
    let (once, other) = not_first a b l m c in
    let apart : b.alert_id ≢ a.alert_id =
      λ e. All_of_In (λ x. x.alert_id ≢ b.alert_id) a l d.0 m (sym e) in
    ((λ e. absurd (apart e), λ e. absurd (other e)), picked_out a l d.1 m once)

-- What the map by type finds is an open alert, of that type.
In-of_InEntries :
    (t : String) (a : Alert) (l : List Alert)
    → InEntries t a (map (λ x. (x.alert_type, x)) l)
    → In a l × (a.alert_type ≡ t)
In-of_InEntries t a [] h = absurd h
In-of_InEntries t a (b ∷ l) (inl (p, q)) = (inl q, subst (λ (x : Alert). x.alert_type ≡ t) q p)
In-of_InEntries t a (b ∷ l) (inr h) = let (m, e) = In-of_InEntries t a l h in (inr m, e)

count_none :
    (t : String) (l : List Alert)
    → All (λ (p : String × Alert). str_eq p.0 t ≡ false) (map (λ (x : Alert). (x.alert_type, x)) l)
    → count t l ≡ 0
unfolding count
count_none t [] h = refl
count_none t (a ∷ l) h = rw h.0 (count_none t l h.1)

none≢some : {a : Alert} → ◌≢◌ {A = Option Alert} none (some a)
none≢some h = cc

-- Either no alert of the type is open, or the map finds one, which its identifier and its type
-- pick out.
abbrev pub Found : String → List Alert → Option Alert → Type 0
Found t l none = count t l ≡ 0
Found t l (some a) = (a.alert_type ≡ t) × PickedOut a l

pub get-Found :
    (t : String) (l : List Alert)
    → DistinctIds l
    → count t l ≤ 1
    → Found t l (get t (open_by_type l))
unfolding open_by_type
get-Found t l d c = go (get t entries) refl
  where
    entries : Dict String Alert
    entries = of_entries [] (map (λ (x : Alert). (x.alert_type, x)) l)

    go : (o : Option Alert) → get t entries ≡ o → Found t l o
    go none e =
        count_none t l (get-of_entries-none t [] (map (λ (x : Alert). (x.alert_type, x)) l) e).1
    go (some a) e = elim (get-of_entries-some t a [] (map (λ (x : Alert). (x.alert_type, x)) l) e) [
      | inl h ↦ unfold get in elim (none≢some h) [ ]
      | inr h ↦ let (m, p) = In-of_InEntries t a l h in (p, picked_out a l d m (rw p c))
    ]

pub get-counted :
    (t : String) (l : List Alert) (a : Alert) → get t (open_by_type l) ≡ some a → 1 ≤ count t l
unfolding open_by_type
get-counted t l a e =
    elim (get-of_entries-some t a [] (map (λ (x : Alert). (x.alert_type, x)) l) e) [
      | inl h ↦ unfold get in elim (none≢some h) [ ]
      | inr h ↦
          let (m, p) = In-of_InEntries t a l h in
          subst (λ (u : String). 1 ≤ count u l) p (count-pos a l m)
    ]
