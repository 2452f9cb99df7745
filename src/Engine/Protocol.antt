-- ===== src/Engine/Protocol.antt =====
-- engine/protocol.ts: the JSON-safe shapes of the rows, and the requests and their results.
pub mod Wire
use cosmad.Prelude.{ℕ, String, Bool, true, false, Option, none, some, List, [], ◌∷◌, or_else}
use cosmad.Prelude.Int.{ℤ}
use cosmad.Outcome.{Result, ok, err}
use cosmad.Platform.{Platform}
use cosmad.Alert.Types.{Fraction}
use cosmad.Tables.{
  ChainType, bft, tm2, Blob, text, bytes, Block, new_block, Alert, new_alert, ValidatorInactivity,
}

pub record WireBlock : Type 0 where
  pub chain_id : String
  pub height : String
  pub hash : String
  pub time : String
  pub signed : ℤ
  pub signature : Option String
  pub precommitted : Option Bool

pub record WireAlert : Type 0 where
  pub alert_id : String
  pub chain_id : String
  pub alert_type : String
  pub subject : Option String
  pub opened_at : String
  pub closed_at : Option String
  pub last_notified_at : Option String
  pub repeat_count : ℕ

pub record WireInactivity : Type 0 where
  pub chain_id : String
  pub height : String
  pub time : String
  pub jailed : Bool
  pub permanent : Bool
  pub bond_status : String
  pub jailed_until : Option String
  pub end_height : Option String
  pub end_time : Option String

-- `value != null ? { key: f(value) } : {}`
abbrev pub optional {ℓ κ} : {A : Type ℓ} {B : Type κ} → (A → B) → Option A → Option B
optional f none = none
optional f (some a) = some (f a)

module _ (p : Platform) where
  unfoldable pub hash_to_wire : ChainType → List ℕ → String
  hash_to_wire tm2 hash = p.to_base64 hash
  hash_to_wire bft hash = p.to_hex hash

  unfoldable pub block_to_wire : ChainType → Block → WireBlock
  unfolding hash_to_wire
  block_to_wire chain_type b = record {
    chain_id = b.chain_id;
    height = p.to_decimal b.height;
    hash = hash_to_wire chain_type b.hash;
    time = p.to_iso b.time;
    signed = b.signed;
    signature = optional p.to_base64 b.signature;
    precommitted = b.precommitted;
  }

  -- A throw of the constructor is an `err`.
  unfoldable pub wire_to_block : ChainType → WireBlock → Result Block
  wire_to_block chain_type w = new_block p (record {
    chain_id = w.chain_id;
    height = p.of_decimal w.height;
    hash = text w.hash;
    time = p.of_iso w.time;
    signed = w.signed;
    signature = optional (λ t. bytes (p.of_base64 t)) w.signature;
    precommitted = w.precommitted;
    chain_type = chain_type;
  })

  unfoldable pub alert_to_wire : Alert → WireAlert
  alert_to_wire a = record {
    alert_id = a.alert_id;
    chain_id = a.chain_id;
    alert_type = a.alert_type;
    subject = a.subject;
    opened_at = p.to_iso a.opened_at;
    closed_at = optional p.to_iso a.closed_at;
    last_notified_at = optional p.to_iso a.last_notified_at;
    repeat_count = a.repeat_count;
  }

  unfoldable pub wire_to_alert : WireAlert → Alert
  unfolding new_alert
  wire_to_alert w = new_alert (record {
    alert_id = w.alert_id;
    chain_id = w.chain_id;
    alert_type = w.alert_type;
    subject = w.subject;
    opened_at = p.of_iso w.opened_at;
    closed_at = optional p.of_iso w.closed_at;
    last_notified_at = optional p.of_iso w.last_notified_at;
    repeat_count = some w.repeat_count;
  })

  unfoldable pub inactivity_to_wire : ValidatorInactivity → WireInactivity
  inactivity_to_wire i = record {
    chain_id = i.chain_id;
    height = p.to_decimal i.height;
    time = p.to_iso i.time;
    jailed = i.jailed;
    permanent = i.permanent;
    bond_status = i.bond_status;
    jailed_until = optional p.to_iso i.jailed_until;
    end_height = optional p.to_decimal i.end_height;
    end_time = optional p.to_iso i.end_time;
  }

  unfoldable pub wire_to_inactivity : WireInactivity → ValidatorInactivity
  wire_to_inactivity w = record {
    chain_id = w.chain_id;
    height = p.of_decimal w.height;
    time = p.of_iso w.time;
    jailed = w.jailed;
    permanent = w.permanent;
    bond_status = w.bond_status;
    jailed_until = optional p.of_iso w.jailed_until;
    end_height = optional p.of_decimal w.end_height;
    end_time = optional p.of_iso w.end_time;
  }

pub record WireChainSignatureStats : Type 0 where
  pub chain_id : String
  pub percentage_signed : Fraction
  pub percentage_missed : Fraction

-- An entry of the result of `getDailySignedStats`.
pub record WireDay : Type 0 where
  pub date : String
  pub total : ℕ
  pub missed : ℕ

-- `EngineRequestBody`, less the two requests over all chains.
pub data Body : Type 0 where
  append_blocks insert_blocks : (chain_id : String) (blocks : List WireBlock) → Body
  latest_block : (chain_id : String) (chain_type : ChainType) → Body
  latest_block_height : (chain_id : String) → Body
  insert_alert : (chain_id : String) (alert : WireAlert) → Body
  get_alert : (chain_id alert_key : String) → Body
  get_unclosed_alerts : (chain_id : String) (limit page : ℕ) → Body
  close_alert : (chain_id alert_id closed_at : String) → Body
  touch_alert_notified : (chain_id alert_id notified_at : String) (repeat_count : ℕ) → Body
  insert_inactivity : (chain_id : String) (period : WireInactivity) → Body
  end_inactivity : (chain_id start_height end_height end_time : String) → Body
  get_open_inactivity : (chain_id : String) → Body
  get_inactivity_history : (chain_id : String) (limit : ℕ) → Body
  get_block_by_height : (chain_id block_height : String) (chain_type : ChainType) → Body
  get_block_by_range : (chain_id start_height end_height : String) (chain_type : ChainType) → Body
  get_block_stats : (chain_id start_height end_height : String) → Body
  get_chain_signed_percentage : (chain_id : String) (days : ℕ) → Body
  get_daily_signed_stats : (chain_id : String) (days : ℕ) → Body

abbrev pub chain_of : Body → String
chain_of (append_blocks c bs) = c
chain_of (insert_blocks c bs) = c
chain_of (latest_block c t) = c
chain_of (latest_block_height c) = c
chain_of (insert_alert c a) = c
chain_of (get_alert c k) = c
chain_of (get_unclosed_alerts c l n) = c
chain_of (close_alert c i t) = c
chain_of (touch_alert_notified c i t n) = c
chain_of (insert_inactivity c i) = c
chain_of (end_inactivity c a z t) = c
chain_of (get_open_inactivity c) = c
chain_of (get_inactivity_history c l) = c
chain_of (get_block_by_height c h t) = c
chain_of (get_block_by_range c a z t) = c
chain_of (get_block_stats c a z) = c
chain_of (get_chain_signed_percentage c n) = c
chain_of (get_daily_signed_stats c n) = c

-- `body.type`
abbrev pub type_of : Body → String
type_of (append_blocks c bs) = "appendBlocks"
type_of (insert_blocks c bs) = "insertBlocks"
type_of (latest_block c t) = "latestBlock"
type_of (latest_block_height c) = "latestBlockHeight"
type_of (insert_alert c a) = "insertAlert"
type_of (get_alert c k) = "getAlert"
type_of (get_unclosed_alerts c l n) = "getUnclosedAlerts"
type_of (close_alert c i t) = "closeAlert"
type_of (touch_alert_notified c i t n) = "touchAlertNotified"
type_of (insert_inactivity c i) = "insertInactivity"
type_of (end_inactivity c a z t) = "endInactivity"
type_of (get_open_inactivity c) = "getOpenInactivity"
type_of (get_inactivity_history c l) = "getInactivityHistory"
type_of (get_block_by_height c h t) = "getBlockByHeight"
type_of (get_block_by_range c a z t) = "getBlockByRange"
type_of (get_block_stats c a z) = "getBlockStats"
type_of (get_chain_signed_percentage c n) = "getChainSignedPercentage"
type_of (get_daily_signed_stats c n) = "getDailySignedStats"

-- `WRITE_REQUEST_TYPES.has(body.type)`
unfoldable pub is_write : Body → Bool
is_write (append_blocks c bs) = true
is_write (insert_blocks c bs) = true
is_write (insert_alert c a) = true
is_write (close_alert c i t) = true
is_write (touch_alert_notified c i t n) = true
is_write (insert_inactivity c i) = true
is_write (end_inactivity c a z t) = true
is_write _ = false

-- The `value` of a response; `nothing` is `undefined` or `null`.
pub data Value : Type 0 where
  nothing : Value
  height : String → Value
  block : WireBlock → Value
  block_list : List WireBlock → Value
  alert : WireAlert → Value
  alert_list : List WireAlert → Value
  period : WireInactivity → Value
  period_list : List WireInactivity → Value
  window : (total missed : ℕ) → Value
  signature_stats : WireChainSignatureStats → Value
  days : List WireDay → Value

-- `EngineResponseBody` is a `Result Value`. `EngineRole` is "reader" or "writer" by its type, but a
-- line is not checked against it: a role is any text, and one that is no text is taken as a text
-- that is neither.
abbrev pub Role : Type 0
Role = String

abbrev pub reader : Role
reader = "reader"

abbrev pub writer : Role
writer = "writer"

-- A line that the server reads. The role of a hello is missing where it is null or not there.
pub data Message : Type 0 where
  hello : Option Role → Message
  request : (id : ℕ) (body : Body) → Message

pub record EngineResponse : Type 0 where
  pub id : ℕ
  pub body : Result Value
