-- ===== src/Tables.antt =====
-- pkgs/database/tables.ts and analytics.ts: the rows that the program stores, and their
-- constructors. Times are milliseconds since the epoch.
use cosmad.Prelude.{ℕ, ◌≡◌, String, List, Bool, ◌&&◌, Option, none, some, if◌then◌else◌, or_else}
use cosmad.Prelude.Int.{ℤ, pos, negsuc, leb_ℤ}
use cosmad.Outcome.{Result, ok, err}
use cosmad.Platform.{Platform}

pub data ChainType : Type 0 where
  bft tm2 : ChainType

-- A `string | Buffer` argument.
pub data Blob : Type 0 where
  text : String → Blob
  bytes : List ℕ → Blob

pub record BlockOptions : Type 0 where
  pub chain_id : String
  pub height : ℕ
  pub hash : Blob
  pub time : ℕ
  pub signed : ℤ
  pub signature : Option Blob
  pub precommitted : Option Bool
  pub chain_type : ChainType

-- `signed`: -1 = was not active, 0 = active but missed, 1 = active and signed.
pub record Block : Type 0 where
  pub chain_id : String
  pub height : ℕ
  pub hash : List ℕ
  pub time : ℕ
  pub signed : ℤ
  pub signature : Option (List ℕ)
  pub precommitted : Option Bool
  pub chain_type : ChainType

-- `hashFn`: the text form depends on the chain's type.
unfoldable pub hash_fn : Platform → ChainType → Blob → List ℕ
hash_fn p c (bytes b) = b
hash_fn p bft (text t) = p.of_hex t
hash_fn p tm2 (text t) = p.of_base64 t

-- `numCheck` throws outside -1 .. 1.
unfoldable pub num_check : ℤ → Result ℤ
num_check signed =
    if leb_ℤ (negsuc 0) signed && leb_ℤ signed (pos 1)
    then ok signed
    else err "Invalid signed value"

unfoldable pub signature_fn : Platform → Option Blob → Option (List ℕ)
signature_fn p none = none
signature_fn p (some (bytes b)) = some b
signature_fn p (some (text t)) = some (p.of_base64 t)

-- The fields that the constructor sets, once `signed` is checked.
unfoldable pub built : Platform → BlockOptions → ℤ → Block
unfolding hash_fn signature_fn
built p o signed = record {
  chain_id = o.chain_id;
  height = o.height;
  hash = hash_fn p o.chain_type o.hash;
  time = o.time;
  signed = signed;
  signature = signature_fn p o.signature;
  precommitted = o.precommitted;
  chain_type = o.chain_type;
}

-- `new Block(options)`: a throw is an `err`.
unfoldable pub new_block : Platform → BlockOptions → Result Block
unfolding built num_check
new_block p o = elim (num_check o.signed) [ ok signed ↦ ok (built p o signed) | err e ↦ err e ]

-- Where the check passes, the constructor builds.
pub new_block-built :
    (p : Platform) (o : BlockOptions) (s : ℤ)
    → num_check o.signed ≡ ok s
    → new_block p o ≡ ok (built p o s)
unfolding new_block
new_block-built p o s h = rw (h, new_block)

pub record Alert : Type 0 where
  pub alert_id : String
  pub chain_id : String
  pub alert_type : String
  pub subject : Option String
  pub opened_at : ℕ
  pub closed_at : Option ℕ
  pub last_notified_at : Option ℕ
  pub repeat_count : ℕ

-- The options of `new Alert`; `repeatCount` defaults to 0.
pub record AlertOptions : Type 0 where
  pub alert_id : String
  pub chain_id : String
  pub alert_type : String
  pub subject : Option String
  pub opened_at : ℕ
  pub closed_at : Option ℕ
  pub last_notified_at : Option ℕ
  pub repeat_count : Option ℕ

unfoldable pub new_alert : AlertOptions → Alert
new_alert o = record {
  alert_id = o.alert_id;
  chain_id = o.chain_id;
  alert_type = o.alert_type;
  subject = o.subject;
  opened_at = o.opened_at;
  closed_at = o.closed_at;
  last_notified_at = o.last_notified_at;
  repeat_count = or_else o.repeat_count 0;
}

-- One period of the validator outside the active set; the end is missing while it goes on.
pub record ValidatorInactivity : Type 0 where
  pub chain_id : String
  pub height : ℕ
  pub time : ℕ
  pub jailed : Bool
  pub permanent : Bool
  pub bond_status : String
  pub jailed_until : Option ℕ
  pub end_height : Option ℕ
  pub end_time : Option ℕ

pub record BlockWindowStats : Type 0 where
  pub total : ℕ
  pub missed : ℕ
