-- ===== src/Alert/Notifiers.antt =====
-- alert/notifiers/: what is sent for an alert's event, to whom, and how often it is tried.
use cosmad.Prelude.{
  ℕ, zero, suc, ◌+◌, String, ◌<>◌, Bool, true, false, Option, none, some, List, [], ◌∷◌, ◌++◌, map,
  is_some, not, or_else, if◌then◌else◌, ◌||◌, str_eq,
}
use cosmad.Platform.{Platform}
use cosmad.Tables.{Alert}
use cosmad.Alert.Types.{Fraction, AlertContext, AlertEvent, opened, closed, repeated}
pub mod Incidents

-- The configurations of config/notification_types.ts.
pub record TelegramConfig : Type 0 where
  pub enabled : Bool
  pub bot_token : String
  pub chat_id : String

pub record DiscordConfig : Type 0 where
  pub enabled : Bool
  pub webhook_url : String

pub record PagerdutyConfig : Type 0 where
  pub enabled : Bool
  pub service_key : String

-- The three of a chain's alert configuration, and the global ones.
pub record Channels : Type 0 where
  pub telegram : Option TelegramConfig
  pub discord : Option DiscordConfig
  pub pagerduty : Option PagerdutyConfig

pub data NotificationKind : Type 0 where
  kind_opened kind_repeat kind_closed : NotificationKind

pub record AlertNotification : Type 0 where
  pub chain_id : String
  pub alert_type : String
  pub alert_id : String
  pub kind : NotificationKind
  pub context : AlertContext
  pub message : String

-- `join("; ")`
unfoldable pub join : List String → String
join [] = ""
join (d ∷ []) = d
join (d ∷ e ∷ ds) = d <> "; " <> join (e ∷ ds)

-- `number` prints a number, `to_fixed` one with two decimals.
module _ (p : Platform) (number to_fixed : Fraction → String) where
  abbrev threshold_of : AlertContext → String
  threshold_of c = elim c.threshold [ none ↦ "undefined" | some t ↦ number t ]

  abbrev percentage_detail : AlertContext → List String
  percentage_detail c = elim c.window_missed_percent [
    | none ↦ []
    | some percent ↦ elim c.window_total [
      | none ↦ []
      | some total ↦
          let missed : String = elim c.window_missed [
            | none ↦ "undefined"
            | some m ↦ p.to_decimal m
          ] in
          (to_fixed percent
            <> "% missed over the last "
            <> p.to_decimal total
            <> " blocks ("
            <> missed
            <> "/"
            <> p.to_decimal total
            <> ", threshold "
            <> threshold_of c
            <> "%)")
          ∷ []
    ]
  ]

  abbrev consecutive_detail : AlertContext → List String
  consecutive_detail c = elim c.consecutive_missed [
    | none ↦ []
    | some n ↦ (p.to_decimal n <> " consecutive misses (threshold " <> threshold_of c <> ")") ∷ []
  ]

  abbrev stalled_detail : AlertContext → List String
  stalled_detail c = elim c.threshold [
    | none ↦ []
    | some t ↦ ("no new block seen in over " <> number t <> "s") ∷ []
  ]

  abbrev inactive_detail : AlertContext → List String
  inactive_detail c =
      let status : String = elim c.bond_status [ none ↦ "" | some s ↦ " (" <> s <> ")" ] in
      ("not jailed, but outside the active set" <> status) ∷ []

  abbrev jailed_detail : AlertContext → List String
  jailed_detail c = elim c.jailed_until [
    | none ↦ "validator jailed" ∷ []
    | some t ↦ ("validator jailed until " <> p.to_iso t) ∷ []
  ]

  -- The `switch` on the alert's type.
  unfoldable pub type_details : String → AlertContext → List String
  type_details t c =
      if str_eq t "percentage_miss"
      then percentage_detail c
      else if str_eq t "consecutive_miss"
      then consecutive_detail c
      else if str_eq t "stalled"
      then stalled_detail c
      else if str_eq t "rpc_down" || str_eq t "api_down"
      then elim c.reason [ none ↦ [] | some r ↦ r ∷ [] ]
      else if str_eq t "inactive"
      then inactive_detail c
      else if str_eq t "jailed"
      then jailed_detail c
      else if str_eq t "tombstoned"
      then "validator tombstoned - permanently jailed, cannot unjail" ∷ []
      else []

  abbrev block_detail : AlertContext → List String
  block_detail c =
      let time : String = elim c.latest_block_time [ none ↦ "" | some t ↦ " at " <> p.to_iso t ] in
      elim c.latest_block_height [
        | none ↦ []
        | some h ↦ ("latest known block " <> p.to_decimal h <> time) ∷ []
      ]

  -- `formatAlertDetails`
  unfoldable pub format_alert_details : String → AlertContext → String
  unfolding type_details join
  format_alert_details t c = elim (type_details t c ++ block_detail c) [
    | [] ↦ ""
    | d ∷ ds ↦ " (" <> join (d ∷ ds) <> ")"
  ]

  unfoldable pub notification_of :
      String → Alert → AlertContext → NotificationKind → String → AlertNotification
  unfolding format_alert_details
  notification_of chain_id a c kind what = record {
    chain_id = chain_id;
    alert_type = a.alert_type;
    alert_id = a.alert_id;
    kind = kind;
    context = c;
    message =
        "["
        <> chain_id
        <> "] Alert "
        <> what
        <> ": "
        <> a.alert_type
        <> elim a.subject [ none ↦ "" | some s ↦ " " <> s ]
        <> format_alert_details a.alert_type c;
  }

  -- `buildNotification`
  unfoldable pub build_notification : AlertEvent → String → AlertNotification
  unfolding notification_of
  build_notification (opened a c) chain_id = notification_of chain_id a c kind_opened "opened"
  build_notification (repeated a c) chain_id =
      notification_of chain_id a c kind_repeat
        ("still open (repeat #" <> p.to_decimal (a.repeat_count + 1) <> ")")
  build_notification (closed a t c) chain_id = notification_of chain_id a c kind_closed "closed"

-- A request that a notifier makes.
pub data Post : Type 0 where
  telegram_message : (url chat_id text : String) → Post
  discord_message : (url content : String) → Post
  pagerduty_event :
      (routing_key event_action dedup_key summary source severity : String) → AlertContext → Post

pub data Notifier : Type 0 where
  telegram_notifier : TelegramConfig → Notifier
  discord_notifier : DiscordConfig → Notifier
  pagerduty_notifier : PagerdutyConfig → Notifier

abbrev pub event_action : NotificationKind → String
event_action kind_closed = "resolve"
event_action kind_opened = "trigger"
event_action kind_repeat = "trigger"

-- `eventAction === "resolve" ? "info" : "critical"`
abbrev pub severity_of : NotificationKind → String
severity_of kind = if str_eq (event_action kind) "resolve" then "info" else "critical"

-- The request in each notifier's `send`.
unfoldable pub post_of : Notifier → AlertNotification → Post
post_of (telegram_notifier cfg) n =
    telegram_message ("https://api.telegram.org/bot" <> cfg.bot_token <> "/sendMessage") cfg.chat_id
      n.message
post_of (discord_notifier cfg) n = discord_message cfg.webhook_url n.message
post_of (pagerduty_notifier cfg) n =
    pagerduty_event cfg.service_key (event_action n.kind) n.alert_id n.message n.chain_id
      (severity_of n.kind) n.context

-- The constructor of `NotificationDispatcher`: a chain's own channel goes before the global one.
abbrev pub preferred {ℓ} : {A : Type ℓ} → Option A → Option A → Option A
preferred (some a) b = some a
preferred none b = b

unfoldable pub telegram_of : Option TelegramConfig → List Notifier
telegram_of none = []
telegram_of (some cfg) = if cfg.enabled then telegram_notifier cfg ∷ [] else []

unfoldable pub discord_of : Option DiscordConfig → List Notifier
discord_of none = []
discord_of (some cfg) = if cfg.enabled then discord_notifier cfg ∷ [] else []

unfoldable pub pagerduty_of : Option PagerdutyConfig → List Notifier
pagerduty_of none = []
pagerduty_of (some cfg) = if cfg.enabled then pagerduty_notifier cfg ∷ [] else []

unfoldable pub new_dispatcher : Channels → Channels → List Notifier
unfolding telegram_of discord_of pagerduty_of
new_dispatcher chain global =
    telegram_of (preferred chain.telegram global.telegram)
    ++ discord_of (preferred chain.discord global.discord)
    ++ pagerduty_of (preferred chain.pagerduty global.pagerduty)

-- `network n post` is whether the n-th try of a request succeeds. A send that is retried is the list
-- of its requests, each with its success.
module _ (network : ℕ → Post → Bool) where
  unfoldable pub tries_from : (left attempt : ℕ) → Post → List (Post × Bool)
  tries_from zero attempt post = []
  tries_from (suc left) attempt post =
      let good = network attempt post in
      let rest = tries_from left (suc attempt) post in (post, good) ∷ (if good then [] else rest)

  -- `sendWithRetry`, with `SEND_RETRY_ATTEMPTS`.
  unfoldable pub send_with_retry : Notifier → AlertNotification → List (Post × Bool)
  unfolding tries_from post_of
  send_with_retry notifier n = tries_from 3 1 (post_of notifier n)

  unfoldable pub send_all : List Notifier → AlertNotification → List (Post × Bool)
  unfolding send_with_retry
  send_all [] n = []
  send_all (notifier ∷ rest) n = send_with_retry notifier n ++ send_all rest n

-- `dispatch`, after the test for no notifier at all.
unfoldable pub dispatch :
    Platform
    → (number to_fixed : Fraction → String) → (ℕ → Post → Bool)
    → List Notifier
    → AlertEvent
    → String
    → List (Post × Bool)
unfolding send_all build_notification
dispatch p number to_fixed network notifiers event chain_id =
    send_all network notifiers (build_notification p number to_fixed event chain_id)
