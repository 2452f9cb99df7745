-- ===== src/Alert/Notifiers/Incidents.antt =====
-- alert/notifiers/: the incident that the on-call service keeps for an alert.
use mathlib.Core.List.{append-nil, append_assoc}
use cosmad.Prelude.{
  ℕ, zero, suc, ◌≡◌, refl, sym, ap, ◌∙◌, String, Bool, true, false, not, ◌&&◌, ◌||◌, Option, none,
  some, List, [], ◌∷◌, ◌++◌, arith, str_eq, if◌then◌else◌, Bool-cases, inl, inr,
}
use cosmad.Platform.{Platform}
use cosmad.Alert.Types.{Fraction, AlertEvent, opened, closed, repeated}
use cosmad.Alert.Notifiers.{
  Post, telegram_message, discord_message, pagerduty_event, Notifier, telegram_notifier,
  discord_notifier, pagerduty_notifier, TelegramConfig, DiscordConfig, PagerdutyConfig,
  AlertNotification, NotificationKind, kind_opened, kind_repeat, kind_closed, event_action, post_of,
  tries_from, send_with_retry, send_all, dispatch, build_notification, notification_of, telegram_of,
  discord_of, pagerduty_of, new_dispatcher, Channels, preferred,
}

-- A request with this `dedup_key` triggers or resolves the incident; any other leaves it.
unfoldable pub effect : String → Post → Bool → Bool
effect id (telegram_message url chat text) b = b
effect id (discord_message url content) b = b
effect id (pagerduty_event routing action key summary source severity context) b =
    if str_eq key id then str_eq action "trigger" || not (str_eq action "resolve") && b else b

-- Whether the incident is open after the requests, of which those count that succeeded.
unfoldable pub incident : String → List (Post × Bool) → Bool → Bool
unfolding effect
incident id [] b = b
incident id ((post, good) ∷ rest) b =
    let after = incident id rest (effect id post b) in
    let same = incident id rest b in if good then after else same

-- Whether the alert is open after the events.
unfoldable pub is_open : String → List AlertEvent → Bool → Bool
is_open id [] b = b
is_open id (opened a c ∷ es) b =
    let yes = is_open id es true in
    let same = is_open id es b in if str_eq a.alert_id id then yes else same
is_open id (repeated a c ∷ es) b =
    let yes = is_open id es true in
    let same = is_open id es b in if str_eq a.alert_id id then yes else same
is_open id (closed a t c ∷ es) b =
    let gone = is_open id es false in
    let same = is_open id es b in if str_eq a.alert_id id then gone else same

-- Some of the tries succeeds.
abbrev pub gets_through : (ℕ → Post → Bool) → ℕ → ℕ → Post → Bool
gets_through network zero attempt post = false
gets_through network (suc left) attempt post =
    network attempt post || gets_through network left (suc attempt) post

-- Whether a notification of this kind triggers.
abbrev is_trigger : NotificationKind → Bool
is_trigger kind_opened = true
is_trigger kind_repeat = true
is_trigger kind_closed = false

event_action-is_trigger :
    (kind : NotificationKind) (b : Bool)
    → (str_eq (event_action kind) "trigger" || not (str_eq (event_action kind) "resolve") && b)
      ≡ is_trigger kind
event_action-is_trigger kind_opened b = refl
event_action-is_trigger kind_repeat b = refl
event_action-is_trigger kind_closed b = refl

module _ (id : String) where
  incident-append :
      (ps qs : List (Post × Bool)) (b : Bool)
      → incident id (ps ++ qs) b ≡ incident id qs (incident id ps b)
  unfolding incident
  incident-append [] qs b = refl
  incident-append ((post, good) ∷ ps) qs b =
      ground (arith, incident-append ps qs b, incident-append ps qs (effect id post b))

  module _ (network : ℕ → Post → Bool) where
    incident-tries_from :
        (left attempt : ℕ) (post : Post) (b : Bool)
        → incident id (tries_from network left attempt post) b
          ≡ (if gets_through network left attempt post then effect id post b else b)
    unfolding incident tries_from
    incident-tries_from zero attempt post b = refl
    incident-tries_from (suc left) attempt post b =
        ground (arith, incident-tries_from left (suc attempt) post b)

    -- The three notifiers: only the on-call one touches the incident.
    incident-telegram :
        (cfg : TelegramConfig) (n : AlertNotification) (b : Bool)
        → incident id (send_with_retry network (telegram_notifier cfg) n) b ≡ b
    unfolding send_with_retry effect post_of
    incident-telegram cfg n b =
        incident-tries_from 3 1 (post_of (telegram_notifier cfg) n) b ∙ ground arith

    incident-discord :
        (cfg : DiscordConfig) (n : AlertNotification) (b : Bool)
        → incident id (send_with_retry network (discord_notifier cfg) n) b ≡ b
    unfolding send_with_retry effect post_of
    incident-discord cfg n b =
        incident-tries_from 3 1 (post_of (discord_notifier cfg) n) b ∙ ground arith

    incident-pagerduty :
        (cfg : PagerdutyConfig) (n : AlertNotification) (b : Bool)
        → gets_through network 3 1 (post_of (pagerduty_notifier cfg) n) ≡ true
        → incident id (send_with_retry network (pagerduty_notifier cfg) n) b
          ≡ (if str_eq n.alert_id id then is_trigger n.kind else b)
    unfolding send_with_retry effect post_of
    incident-pagerduty cfg n b h =
        incident-tries_from 3 1 (post_of (pagerduty_notifier cfg) n) b
        ∙ ground (arith, h, event_action-is_trigger n.kind b)

    send_all-append :
        (ms ns : List Notifier) (n : AlertNotification)
        → send_all network (ms ++ ns) n ≡ send_all network ms n ++ send_all network ns n
    unfolding send_all
    send_all-append [] ns n = refl
    send_all-append (m ∷ ms) ns n =
        ap (λ ps. send_with_retry network m n ++ ps) (send_all-append ms ns n)
        ∙ sym (
            append_assoc (send_with_retry network m n) (send_all network ms n)
              (send_all network ns n))

    incident-one :
        (m : Notifier) (n : AlertNotification) (b : Bool)
        → incident id (send_all network (m ∷ []) n) b ≡ incident id (send_with_retry network m n) b
    unfolding send_all
    incident-one m n b = ap (λ ps. incident id ps b) (append-nil (send_with_retry network m n))

    incident-telegram_of :
        (o : Option TelegramConfig) (n : AlertNotification) (b : Bool)
        → incident id (send_all network (telegram_of o) n) b ≡ b
    unfolding telegram_of send_all incident
    incident-telegram_of none n b = refl
    incident-telegram_of (some cfg) n b = elim (Bool-cases cfg.enabled) [
      | inl e ↦ rw (e) (incident-one (telegram_notifier cfg) n b ∙ incident-telegram cfg n b)
      | inr e ↦ rw (e) refl
    ]

    incident-discord_of :
        (o : Option DiscordConfig) (n : AlertNotification) (b : Bool)
        → incident id (send_all network (discord_of o) n) b ≡ b
    unfolding discord_of send_all incident
    incident-discord_of none n b = refl
    incident-discord_of (some cfg) n b = elim (Bool-cases cfg.enabled) [
      | inl e ↦ rw (e) (incident-one (discord_notifier cfg) n b ∙ incident-discord cfg n b)
      | inr e ↦ rw (e) refl
    ]

    incident-pagerduty_of :
        (o : Option PagerdutyConfig) (cfg : PagerdutyConfig) (n : AlertNotification) (b : Bool)
        → o ≡ some cfg
        → cfg.enabled ≡ true
        → gets_through network 3 1 (post_of (pagerduty_notifier cfg) n) ≡ true
        → incident id (send_all network (pagerduty_of o) n) b
          ≡ (if str_eq n.alert_id id then is_trigger n.kind else b)
    unfolding pagerduty_of send_all
    incident-pagerduty_of o cfg n b chosen on through =
        rw (chosen, on)
          (incident-one (pagerduty_notifier cfg) n b ∙ incident-pagerduty cfg n b through)

    -- The channels before the on-call service, and the service.
    incident-send_all :
        (chain global : Channels) (cfg : PagerdutyConfig) (n : AlertNotification) (b : Bool)
        → preferred chain.pagerduty global.pagerduty ≡ some cfg
        → cfg.enabled ≡ true
        → gets_through network 3 1 (post_of (pagerduty_notifier cfg) n) ≡ true
        → incident id (send_all network (new_dispatcher chain global) n) b
          ≡ (if str_eq n.alert_id id then is_trigger n.kind else b)
    unfolding new_dispatcher
    incident-send_all chain global cfg n b chosen on through =
        let t = telegram_of (preferred chain.telegram global.telegram) in
        let d = discord_of (preferred chain.discord global.discord) in
        let g = pagerduty_of (preferred chain.pagerduty global.pagerduty) in
        let td = t ++ d in
        ap (λ ps. incident id ps b) (send_all-append td g n)
        ∙ incident-append (send_all network td n) (send_all network g n) b
        ∙ ap (λ x. incident id (send_all network g n) x)
            (ap (λ ps. incident id ps b) (send_all-append t d n)
              ∙ incident-append (send_all network t n) (send_all network d n) b
              ∙ ap (λ x. incident id (send_all network d n) x)
                  (incident-telegram_of (preferred chain.telegram global.telegram) n b)
              ∙ incident-discord_of (preferred chain.discord global.discord) n b)
        ∙ incident-pagerduty_of (preferred chain.pagerduty global.pagerduty) cfg n b chosen on
            through

module _ (p : Platform) (number to_fixed : Fraction → String) (networks : ℕ → ℕ → Post → Bool)
    (notifiers : List Notifier) where
  -- The events in turn; the network is that of the n-th event.
  unfoldable pub dispatch_all : ℕ → List AlertEvent → String → List (Post × Bool)
  unfolding dispatch
  dispatch_all n [] chain_id = []
  dispatch_all n (e ∷ es) chain_id =
      dispatch p number to_fixed (networks n) notifiers e chain_id
      ++ dispatch_all (suc n) es chain_id

-- Every request gets through within its three tries.
abbrev pub Delivers : (ℕ → ℕ → Post → Bool) → Type 0
Delivers networks = (n : ℕ) (post : Post) → gets_through (networks n) 3 1 post ≡ true

module _ (p : Platform) (number to_fixed : Fraction → String) (chain global : Channels)
    (cfg : PagerdutyConfig) (chosen : preferred chain.pagerduty global.pagerduty ≡ some cfg)
    (on : cfg.enabled ≡ true) where
  incident-dispatch :
      (id chain_id : String) (network : ℕ → Post → Bool) (e : AlertEvent) (b : Bool)
      → ((post : Post) → gets_through network 3 1 post ≡ true)
      → incident id (dispatch p number to_fixed network (new_dispatcher chain global) e chain_id) b
        ≡ is_open id (e ∷ []) b
  unfolding dispatch is_open build_notification notification_of
  incident-dispatch id chain_id network (opened a c) b through =
      incident-send_all id network chain global cfg _ b chosen on (through _)
  incident-dispatch id chain_id network (repeated a c) b through =
      incident-send_all id network chain global cfg _ b chosen on (through _)
  incident-dispatch id chain_id network (closed a t c) b through =
      incident-send_all id network chain global cfg _ b chosen on (through _)

  is_open_cons :
      (id : String) (e : AlertEvent) (es : List AlertEvent) (b : Bool)
      → is_open id (e ∷ es) b ≡ is_open id es (is_open id (e ∷ []) b)
  unfolding is_open
  is_open_cons id (opened a c) es b = ground arith
  is_open_cons id (repeated a c) es b = ground arith
  is_open_cons id (closed a t c) es b = ground arith

  incident-dispatch_from :
      (networks : ℕ → ℕ → Post → Bool)
      → Delivers networks
      → (id chain_id : String) (n : ℕ) (es : List AlertEvent) (b : Bool)
      → incident id
          (dispatch_all p number to_fixed networks (new_dispatcher chain global) n es chain_id)
          b
        ≡ is_open id es b
  unfolding dispatch_all incident is_open
  incident-dispatch_from networks through id chain_id n [] b = refl
  incident-dispatch_from networks through id chain_id n (e ∷ es) b =
      let sent = dispatch p number to_fixed (networks n) (new_dispatcher chain global) e chain_id in
      let rest =
        dispatch_all p number to_fixed networks (new_dispatcher chain global) (suc n) es chain_id in
      incident-append id sent rest b
      ∙ ap (incident id rest) (incident-dispatch id chain_id (networks n) e b (through n))
      ∙ incident-dispatch_from networks through id chain_id (suc n) es (is_open id (e ∷ []) b)
      ∙ sym (is_open_cons id e es b)

-- Once the events are dispatched, the incident that the on-call service keeps under an alert's
-- identifier is open exactly if the alert is open after them, from the same before them, with the
-- service configured and enabled for the chain or else globally, and a network that lets each
-- request through within its three tries.
pub incident-dispatch_all :
    (p : Platform) (number to_fixed : Fraction → String) (chain global : Channels)
    (cfg : PagerdutyConfig) (networks : ℕ → ℕ → Post → Bool)
    → preferred chain.pagerduty global.pagerduty ≡ some cfg
    → cfg.enabled ≡ true
    → Delivers networks
    → (id chain_id : String) (es : List AlertEvent) (b : Bool)
    → incident id
        (dispatch_all p number to_fixed networks (new_dispatcher chain global) 0 es chain_id)
        b
      ≡ is_open id es b
incident-dispatch_all p number to_fixed chain global cfg networks chosen on through id chain_id es
      b =
    incident-dispatch_from p number to_fixed chain global cfg chosen on networks through id chain_id
      0 es b
