-- ===== src/Database/Contiguous.antt =====
-- The blocks that the database holds of one chain, when their heights leave no gap.
use mathlib.Core.List.{map-append, append-nil, append_assoc}
use cosmad.Prelude.{
  ℕ, zero, suc, ◌≤◌, ◌<◌, ◌+◌, ◌-◌, String, true, false, ◌≡◌, refl, ap, sym, subst, ◌∙◌, inl, inr,
  Option, none, some, List, [], ◌∷◌, ◌++◌, arith, Bool-cases, All, All-append, if◌then◌else◌,
  str_eq, eq_iff, keep, ◌==◌,
}
use cosmad.Tables.{Block}
use cosmad.Database.Store.{Store, has_block, add_blocks, highest, max_height}
use cosmad.Worker.Collect.Contiguous.{count_up, heights, Climbs}

-- The rows of one chain.
abbrev pub of_chain : String → List Block → List Block
of_chain c = keep (λ b. str_eq b.chain_id c)

abbrev pub IsContiguous : String → Store → Type 0
IsContiguous c s = (lo : ℕ) × (m : ℕ) × (heights (of_chain c s.blocks) ≡ count_up lo m)

abbrev pub Below : String → ℕ → List Block → Type 0
Below c n = All (λ (b : Block). b.chain_id ≡ c → b.height < n)

abbrev pub OfChain : String → List Block → Type 0
OfChain c = All (λ (b : Block). b.chain_id ≡ c)

has_block-Below :
    (c : String) (n h : ℕ) (table : List Block)
    → Below c n table
    → n ≤ h
    → has_block c h table ≡ false
unfolding has_block
has_block-Below c n h [] below k = refl
has_block-Below c n h (b ∷ bs) below k =
    ground (arith, has_block-Below c n h bs below.1 k, eq_iff b.chain_id c, below.0)

Below-up : (c : String) (n m : ℕ) (table : List Block) → n ≤ m → Below c n table → Below c m table
Below-up c n m [] k h = tt
Below-up c n m (b ∷ bs) k h = ((λ e. let x = h.0 e in omega arith), Below-up c n m bs k h.1)

-- New blocks of the chain that climb from above all that is stored are added behind it.
pub add_blocks-above :
    (c : String) (n m : ℕ) (bs table : List Block)
    → OfChain c bs
    → Climbs n m bs
    → Below c n table
    → add_blocks bs table ≡ some (table ++ bs)
unfolding add_blocks
add_blocks-above c n m [] table own climbs below = rw append-nil
add_blocks-above c n m (b ∷ bs) table own climbs below =
    let free : has_block b.chain_id b.height table ≡ false =
      subst (λ x. has_block x b.height table ≡ false) (sym own.0)
        (has_block-Below c n b.height table below climbs.0) in
    let next = add_blocks-above c (suc b.height) m bs (table ++ b ∷ []) own.1 climbs.2 (
      All-append (λ (x : Block). x.chain_id ≡ c → x.height < suc b.height) table (b ∷ [])
        (Below-up c n (suc b.height) table (omega arith) below) ((λ e. omega arith), tt)) in
    ground (arith, append_assoc table (b ∷ []) bs)

of_chain-append :
    (c : String) (xs ys : List Block) → of_chain c (xs ++ ys) ≡ of_chain c xs ++ of_chain c ys
of_chain-append c [] ys = refl
of_chain-append c (b ∷ xs) ys = ground (arith, of_chain-append c xs ys)

of_chain_own : (c : String) (bs : List Block) → OfChain c bs → of_chain c bs ≡ bs
of_chain_own c [] h = refl
of_chain_own c (b ∷ bs) h = ground (arith, of_chain_own c bs h.1, eq_iff b.chain_id c)

count_up-append : (lo m n k : ℕ) → n ≡ lo + m → count_up lo m ++ count_up n k ≡ count_up lo (m + k)
count_up-append lo zero n k e =
    let (a, b) : (n ≡ lo) × (0 + k ≡ k) = (omega arith, omega arith) in rw (a, b)
count_up-append lo (suc m) n k e =
    let a : suc m + k ≡ suc (m + k) = omega arith in
    rw (count_up-append (suc lo) m n k (omega arith), a)

-- A row of the chain takes the first number of the run, another chain's row takes none.
rows_head :
    (c : String) (n k : ℕ) (b : Block) (bs : List Block)
    → str_eq b.chain_id c ≡ true
    → heights (of_chain c (b ∷ bs)) ≡ count_up n k
    → (j : ℕ) × (k ≡ suc j) × (b.height ≡ n) × (heights (of_chain c bs) ≡ count_up (suc n) j)
rows_head c n zero b bs own e = absurd (cc (own, e))
rows_head c n (suc j) b bs own e = (j, refl, ground arith, ground arith)

rows_tail :
    (c : String) (l : List ℕ) (b : Block) (bs : List Block)
    → str_eq b.chain_id c ≡ false
    → heights (of_chain c (b ∷ bs)) ≡ l
    → heights (of_chain c bs) ≡ l
rows_tail c l b bs other e = ground arith

newest :
    (best : Option ℕ) (b : Block) (n : ℕ)
    → b.height ≡ n
    → ((g : ℕ) → best ≡ some g → g < n)
    → max_height best b.height ≡ some n
newest none b n e h = rw e
newest (some g) b n e h = let lt = h g refl in ground arith

-- What the newest stored height is.
pub highest-count_up :
    (c : String) (n k : ℕ) (bs : List Block) (best : Option ℕ)
    → heights (of_chain c bs) ≡ count_up n k
    → ((g : ℕ) → best ≡ some g → g < n)
    → highest c bs best ≡ (if k == 0 then best else some (n + k - 1))
unfolding highest
highest-count_up c n zero [] best e h = refl
highest-count_up c n (suc k) [] best e h = cc
highest-count_up c n k (b ∷ bs) best e h = elim (Bool-cases (str_eq b.chain_id c)) [
  | inl own ↦
      let (j, kj, hb, rest) = rows_head c n k b bs own e in
      let ih = highest-count_up c (suc n) j bs (some n) rest (λ g x. ground arith) in
      rw own (rw (newest best b n hb h) (rw ih (rw kj (ground arith))))
  | inr other ↦
      rw other (highest-count_up c n k bs best (rows_tail c (count_up n k) b bs other e) h)
]

pub Below-of_count_up :
    (c : String) (n k : ℕ) (bs : List Block)
    → heights (of_chain c bs) ≡ count_up n k
    → Below c (n + k) bs
Below-of_count_up c n k [] e = tt
Below-of_count_up c n k (b ∷ bs) e = elim (Bool-cases (str_eq b.chain_id c)) [
  | inl own ↦
      let (j, kj, hb, rest) = rows_head c n k b bs own e in
      (
        (λ x. omega arith),
        Below-up c (suc n + j) (n + k) bs (omega arith) (Below-of_count_up c (suc n) j bs rest),
      )
  | inr other ↦ (
    (λ x. absurd (ground (arith, eq_iff b.chain_id c))),
    Below-of_count_up c n k bs (rows_tail c (count_up n k) b bs other e),
  )
]

-- A run of the chain's blocks behind a run that it goes on from.
pub rows_after :
    (c : String) (lo m k : ℕ) (table bs : List Block)
    → heights (of_chain c table) ≡ count_up lo m
    → OfChain c bs
    → heights bs ≡ count_up (lo + m) k
    → heights (of_chain c (table ++ bs)) ≡ count_up lo (m + k)
rows_after c lo m k table bs stored own run = rw (of_chain-append c table bs) (
    rw (of_chain_own c bs own) (
      map-append (λ (b : Block). b.height) (of_chain c table) bs
      ∙ (ap (λ (l : List ℕ). l ++ heights bs) stored
          ∙ (ap (λ (l : List ℕ). count_up lo m ++ l) run ∙ count_up-append lo m (lo + m) k refl))))
