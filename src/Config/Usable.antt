-- ===== src/Config/Usable.antt =====
-- What every chain of a loaded configuration has.
use cosmad.Prelude.{
  ◌≡◌, refl, sym, String, false, Option, none, some, List, [], ◌∷◌, map, str_eq, Bool-cases, inl,
  inr, or_else, All, ◌∙◌, ◌⊎◌, ◌<>◌, subst, arith, keep,
}
use cosmad.Outcome.{Result, ok, err}
use cosmad.Dict.{Dict, set, contains, of_entries, All-set, string_eq}
use cosmad.Worker.Types.{ChainConfig, Endpoint, Identity, bft_identity, tm2_identity}
use cosmad.Config.{
  File, unreadable, refused, valid, Load, returned, thrown, exited, is_empty, strip, strip_urls,
  validate_chain_config, validate_all, load_files, load_chain_configs, ends_with,
}

-- There is a node to ask; a chain of the kind bft has a consensus address and an API, one of the
-- kind tm2 a signing address.
abbrev pub Identified : Identity → Option (List Endpoint) → Type 0
Identified (bft_identity valoper valcons) api_urls =
    (str_eq valcons "" ≡ false) × (is_empty (or_else api_urls []) ≡ false)
Identified (tm2_identity operator signing) api_urls = str_eq signing "" ≡ false

abbrev pub Usable : ChainConfig → Type 0
Usable c = (is_empty c.rpc_urls ≡ false) × Identified c.identity c.api_urls

abbrev pub AllUsable : Dict String ChainConfig → Type 0
AllUsable = All (λ (p : String × ChainConfig). Usable p.1)

is_empty-map : (es : List Endpoint) → is_empty (map strip es) ≡ is_empty es
is_empty-map [] = refl
is_empty-map (e ∷ es) = refl

apis-strip :
    (urls : Option (List Endpoint))
    → is_empty (or_else (elim urls [ none ↦ none | some us ↦ some (map strip us) ]) [])
      ≡ is_empty (or_else urls [])
apis-strip none = refl
apis-strip (some us) = is_empty-map us

Identity-cases :
    (i : Identity)
    → ((a b : String) × (i ≡ bft_identity a b)) ⊎ ((a b : String) × (i ≡ tm2_identity a b))
Identity-cases (bft_identity a b) = inl (a, b, refl)
Identity-cases (tm2_identity a b) = inr (a, b, refl)

Identified-strip :
    (i : Identity) (urls : Option (List Endpoint))
    → Identified i urls
    → Identified i (elim urls [ none ↦ none | some us ↦ some (map strip us) ])
Identified-strip (bft_identity a b) urls (signer, apis) = (signer, apis-strip urls ∙ apis)
Identified-strip (tm2_identity a b) urls signer = signer

Usable-strip_urls : (c : ChainConfig) → Usable c → Usable (strip_urls c)
Usable-strip_urls c (node, rest) =
    (is_empty-map c.rpc_urls ∙ node, Identified-strip c.identity c.api_urls rest)

validate_chain_config-strip_urls :
    (chain_id : String) (c v : ChainConfig)
    → validate_chain_config chain_id c ≡ ok v
    → Usable c × (v ≡ strip_urls c)
unfolding validate_chain_config
validate_chain_config-strip_urls chain_id c v h = elim (Identity-cases c.identity) [
  | inl (a, b, i) ↦ ground (arith, h, i)
  | inr (a, b, i) ↦ ground (arith, h, i)
]

validate_chain_config-Usable :
    (chain_id : String) (c v : ChainConfig) → validate_chain_config chain_id c ≡ ok v → Usable v
validate_chain_config-Usable chain_id c v h =
    let (usable, e) = validate_chain_config-strip_urls chain_id c v h in
    subst Usable (sym e) (Usable-strip_urls c usable)

-- What is `ok` in a result.
abbrev pub Holds : {A : Type 0} → (A → Type 0) → Result A → Type 0
Holds P (err e) = Unit
Holds P (ok a) = P a

Holds-intro : {A : Type 0} (P : A → Type 0) (r : Result A) → ((a : A) → r ≡ ok a → P a) → Holds P r
Holds-intro P (err e) h = tt
Holds-intro P (ok a) h = h a refl

Holds-ok : {A : Type 0} (P : A → Type 0) (r : Result A) (a : A) → Holds P r → r ≡ ok a → P a
Holds-ok P r a holds e = subst (Holds P) e holds

pub validate_all-AllUsable : (es : Dict String ChainConfig) → Holds AllUsable (validate_all es)
unfolding validate_all
validate_all-AllUsable [] = tt
validate_all-AllUsable ((chain_id, c) ∷ es) =
    let rest = validate_all-AllUsable es in
    let here =
      Holds-intro Usable (validate_chain_config chain_id c)
        (validate_chain_config-Usable chain_id c) in
    both (validate_chain_config chain_id c) (validate_all es) here rest
  where
    both :
        (r : Result ChainConfig) (rs : Result (Dict String ChainConfig))
        → Holds Usable r
        → Holds AllUsable rs
        → Holds AllUsable (elim r [
          | err e ↦ err e
          | ok v ↦ elim rs [ err e ↦ err e | ok vs ↦ ok ((chain_id, v) ∷ vs) ]
        ])
    both (err e) rs h hs = tt
    both (ok v) (err e) h hs = tt
    both (ok v) (ok vs) h hs = (h, hs)

-- What a loader returns as `ok`.
abbrev pub Yields : {A : Type 0} → (A → Type 0) → Load A → Type 0
Yields P (returned r) = Holds P r
Yields P (thrown e) = Unit
Yields P exited = Unit

bound :
    (r : Result ChainConfig) (next : ChainConfig → Load (Dict String ChainConfig))
    → Holds Usable r
    → ((v : ChainConfig) → Usable v → Yields AllUsable (next v))
    → Yields AllUsable (elim r [ err e ↦ returned (err e) | ok v ↦ next v ])
bound (err e) next h then_next = tt
bound (ok v) next h then_next = then_next v h

load_files-AllUsable :
    (basename : String → String) (seen : List String) (configs : Dict String ChainConfig)
    (files : List (String × File ChainConfig))
    → AllUsable configs
    → Yields AllUsable (load_files basename seen configs files)
unfolding load_files
load_files-AllUsable basename seen configs [] all = all
load_files-AllUsable basename seen configs ((name, file) ∷ files) all =
    let chain_id = basename name in
    let next = λ (v : ChainConfig) (usable : Usable v).
      load_files-AllUsable basename (chain_id ∷ seen) (set chain_id v configs) files
        (All-set (λ (p : String × ChainConfig). Usable p.1) chain_id v configs usable all) in
    elim (Bool-cases (contains chain_id seen)) [
      | inl b ↦ rw (b) tt
      | inr b ↦ rw (b) (read_file next file)
    ]
  where
    read_file :
        ((v : ChainConfig)
          → Usable v
          → Yields AllUsable
              (load_files basename (basename name ∷ seen) (set (basename name) v configs) files))
        → (f : File ChainConfig)
        → Yields AllUsable (elim f [
          | unreadable e ↦ thrown e
          | refused problems ↦ returned (err ("Invalid chain config: " <> problems))
          | valid c ↦ elim (validate_chain_config (basename name) c) [
            | err e ↦ returned (err e)
            | ok v ↦
                load_files basename (basename name ∷ seen) (set (basename name) v configs) files
          ]
        ])
    read_file next (unreadable e) = tt
    read_file next (refused problems) = tt
    read_file next (valid c) =
        let checked = validate_chain_config (basename name) c in
        bound checked
          (λ v. load_files basename (basename name ∷ seen) (set (basename name) v configs) files)
          (Holds-intro Usable checked (validate_chain_config-Usable (basename name) c)) next

pub load_chain_configs-AllUsable :
    (basename : String → String) (dir : Result (List (String × File ChainConfig)))
    → Yields AllUsable (load_chain_configs basename dir)
unfolding load_chain_configs
load_chain_configs-AllUsable basename (err e) = tt
load_chain_configs-AllUsable basename (ok files) =
    load_files-AllUsable basename [] [] (keep (λ f. ends_with ".toml" f.0) files) tt

pub of_entries-AllUsable :
    (m es : Dict String ChainConfig) → AllUsable m → AllUsable es → AllUsable (of_entries m es)
unfolding of_entries
of_entries-AllUsable m [] all more = all
of_entries-AllUsable m ((k, v) ∷ es) all (usable, more) =
    of_entries-AllUsable (set k v m) es
      (All-set (λ (p : String × ChainConfig). Usable p.1) k v m usable all) more
