-- ===== src/Alert/Checks.antt =====
-- alert/index.ts: the checks for a stalled chain, consecutive misses and the share of misses.
-- `now` is `Date.now()` and `id` what `Alert.generateId()` returns for this check.
pub mod Misses
use mathlib.Core.List.{reverse}
use cosmad.Prelude.{
  ℕ, zero, suc, ◌+◌, ◌-◌, ◌*◌, ◌^◌, String, Bool, true, false, not, ◌||◌, Option, none, some, List,
  [], ◌∷◌, ltb, leb, ◌==◌, if◌then◌else◌, or_else, length, drop, last?,
}
use cosmad.Prelude.Int.{is_falsy}
use cosmad.Tables.{Block, Alert, new_alert, BlockWindowStats}
use cosmad.Alert.Types.{
  Fraction, whole, at_least, AlertContext, no_context, AlertEvent, opened, closed, repeated,
  ChainTip, StalledAlert, ConsecutiveMissAlert, PercentageMissAlert,
}

unfoldable pub block_context : Option Block → AlertContext
block_context none = no_context
block_context (some b) = record no_context {
  latest_block_height = some b.height;
  latest_block_time = some b.time;
}

-- `new Alert({alertId: Alert.generateId(), chainId, alertType, subject, openedAt})`
unfoldable pub fresh_alert : String → String → String → Option String → ℕ → Alert
unfolding new_alert
fresh_alert id chain_id alert_type subject opened_at = new_alert (record {
  alert_id = id;
  chain_id = chain_id;
  alert_type = alert_type;
  subject = subject;
  opened_at = opened_at;
  closed_at = none;
  last_notified_at = none;
  repeat_count = none;
})

module _ (chain_id : String) (now : ℕ) (id : String) where
  -- The last three branches of a check without repeats.
  abbrev open_or_close : String → Bool → Option Alert → AlertContext → List AlertEvent
  open_or_close kind true none context = opened (fresh_alert id chain_id kind none now) context ∷ []
  open_or_close kind true (some a) context = []
  open_or_close kind false none context = []
  open_or_close kind false (some a) context = closed a now context ∷ []

  -- `checkStalled`; `now - time > threshold * 1000` with the difference moved across.
  unfoldable pub check_stalled : StalledAlert → ChainTip → Option Alert → List AlertEvent
  unfolding fresh_alert
  check_stalled cfg tip existing =
      if not cfg.enabled
      then []
      else open_or_close "stalled" (ltb (tip.time + cfg.stalled_threshold * 1000) now) existing
          (record no_context {
            latest_block_height = some tip.height;
            latest_block_time = some tip.time;
            threshold = some (whole cfg.stalled_threshold);
          })

-- The loop of `checkConsecutiveMiss` runs from the newest block back, and stops at the first one
-- that was not missed: here the newest comes first.
unfoldable pub miss_run : List Block → ℕ
miss_run [] = 0
miss_run (b ∷ bs) = let rest = miss_run bs in if is_falsy b.signed then suc rest else 0

unfoldable pub trailing_misses : List Block → ℕ
unfolding miss_run
trailing_misses bs = miss_run (reverse bs)

-- `blocks.slice(-n)`: the last n, but `slice(-0)` is the whole array.
unfoldable pub slice_last : ℕ → List Block → List Block
slice_last zero bs = bs
slice_last (suc n) bs = drop (length bs - suc n) bs

module _ (chain_id : String) (now : ℕ) (id : String) where
  -- `checkConsecutiveMiss` once `missed` is counted. The repeat is due when
  -- `(now - last) / 1000 >= repeatInterval`, with the difference moved across.
  unfoldable pub consecutive_events :
      ConsecutiveMissAlert → Bool → AlertContext → Option Alert → List AlertEvent
  unfolding fresh_alert
  consecutive_events cfg true context none =
      opened (fresh_alert id chain_id "consecutive_miss" none now) context ∷ []
  consecutive_events cfg true context (some a) =
      if not cfg.repeats
      then []
      else if leb (or_else a.last_notified_at a.opened_at + cfg.repeat_interval * 1000) now
      then repeated a context ∷ []
      else []
  consecutive_events cfg false context (some a) = closed a now context ∷ []
  consecutive_events cfg false context none = []

  unfoldable pub check_consecutive_miss :
      ConsecutiveMissAlert → List Block → Option Alert → List AlertEvent
  unfolding trailing_misses block_context consecutive_events
  check_consecutive_miss cfg recent existing =
      let missed = trailing_misses recent in
      if not cfg.enabled
      then []
      else consecutive_events cfg (leb cfg.threshold missed)
          (record (block_context (last? recent)) {
            consecutive_missed = some missed;
            threshold = some (whole cfg.threshold);
          })
          existing

  -- `checkPercentageMiss`: `ratio = missed / total * 100`. A repeat needs the threshold times
  -- `1.5 ** (repeatCount + 1)`.
  unfoldable pub percentage_events :
      PercentageMissAlert → Fraction → AlertContext → Option Alert → List AlertEvent
  unfolding fresh_alert at_least
  percentage_events cfg ratio context none =
      if at_least ratio cfg.threshold
      then opened (fresh_alert id chain_id "percentage_miss" none now) context ∷ []
      else []
  percentage_events cfg ratio context (some a) =
      let next : Fraction = record {
        num = cfg.threshold.num * 3 ^ (a.repeat_count + 1);
        den = cfg.threshold.den * 2 ^ (a.repeat_count + 1);
      } in
      if at_least ratio cfg.threshold
      then if not cfg.repeats
        then []
        else if at_least ratio next
        then repeated a context ∷ []
        else []
      else closed a now context ∷ []

  unfoldable pub check_percentage_miss :
      PercentageMissAlert → BlockWindowStats → Option Block → Option Alert → List AlertEvent
  unfolding block_context percentage_events
  check_percentage_miss cfg stats latest existing =
      let ratio : Fraction = record { num = stats.missed * 100; den = stats.total } in
      if not cfg.enabled || stats.total == 0
      then []
      else percentage_events cfg ratio
          (record (block_context latest) {
            window_total = some stats.total;
            window_missed = some stats.missed;
            window_missed_percent = some ratio;
            threshold = some cfg.threshold;
          })
          existing
