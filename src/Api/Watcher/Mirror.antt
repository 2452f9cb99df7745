-- ===== src/Api/Watcher/Mirror.antt =====
-- api/watcher.ts: what a subscriber to the events knows of the open alerts.
use cosmad.Prelude.{
  ◌≡◌, refl, sym, ap, subst, ◌∙◌, String, Bool, true, false, not, ◌&&◌, ◌||◌, List, [], ◌∷◌, ◌++◌,
  arith, str_eq, eq_iff, or_else, Bool-cases, if◌then◌else◌, inl, inr,
}
use cosmad.Outcome.{Result, ok, err}
use cosmad.Platform.{Platform}
use cosmad.Tables.{Alert}
use cosmad.Dict.{get, get-set, contains, string_eq}
use cosmad.Api.Types.{SseEvent, block, alert_opened, alert_closed, chain_online, serialize_alert}
use cosmad.Api.Watcher.{
  Reads, Watcher, new_set, ids_of, block_events, check_blocks, opened_events, closed_events,
  check_alerts, poll, polls,
}

-- A subscriber that shows an alert from its opening to its closing: whether it shows the alert of
-- this chain and identifier after the events, if it did or did not before them.
unfoldable pub shows : String → String → List SseEvent → Bool → Bool
shows c i [] b = b
shows c i (alert_opened d a ∷ es) b =
    let seen = shows c i es true in
    let same = shows c i es b in if str_eq d c && str_eq a.alert_id i then seen else same
shows c i (alert_closed d j ∷ es) b =
    let gone = shows c i es false in
    let same = shows c i es b in if str_eq d c && str_eq j i then gone else same
shows c i (block d j ∷ es) b = shows c i es b
shows c i (chain_online d ∷ es) b = shows c i es b

-- Whether the watcher holds the alert for open.
abbrev pub holds : String → String → Watcher → Bool
holds c i w = contains i (or_else (get c w.last_alert_ids) [])

module _ (c i : String) where
  shows-append :
      (es fs : List SseEvent) (b : Bool) → shows c i (es ++ fs) b ≡ shows c i fs (shows c i es b)
  unfolding shows
  shows-append [] fs b = refl
  shows-append (alert_opened d a ∷ es) fs b =
      ground (arith, shows-append es fs true, shows-append es fs b)
  shows-append (alert_closed d j ∷ es) fs b =
      ground (arith, shows-append es fs false, shows-append es fs b)
  shows-append (block d j ∷ es) fs b = shows-append es fs b
  shows-append (chain_online d ∷ es) fs b = shows-append es fs b

  contains-append : (xs ys : List String) → contains i (xs ++ ys) ≡ (contains i xs || contains i ys)
  unfolding contains
  contains-append [] ys = refl
  contains-append (x ∷ xs) ys = ground (arith, contains-append xs ys)

  contains-new_set :
      (acc xs : List String) → contains i (new_set acc xs) ≡ (contains i acc || contains i xs)
  unfolding contains new_set
  contains-new_set acc [] = ground arith
  contains-new_set acc (x ∷ xs) = ground (
    arith,
    contains-new_set acc xs,
    contains-new_set (acc ++ x ∷ []) xs,
    contains-append acc (x ∷ []),
    eq_iff x i,
  )

  module _ (p : Platform) where
    shows-opened_events :
        (d : String) (prev : List String) (current : List Alert) (b : Bool)
        → shows c i (opened_events p d prev current) b
          ≡ (b || str_eq d c && contains i (ids_of current) && not (contains i prev))
    unfolding shows opened_events contains serialize_alert
    shows-opened_events d prev [] b = ground arith
    shows-opened_events d prev (a ∷ rest) b = ground (
      arith,
      shows-opened_events d prev rest b,
      shows-opened_events d prev rest true,
      eq_iff a.alert_id i,
    )

    shows-closed_events :
        (d : String) (current prev : List String) (b : Bool)
        → shows c i (closed_events p d current prev) b
          ≡ (b && not (str_eq d c && contains i prev && not (contains i current)))
    unfolding shows closed_events contains
    shows-closed_events d current [] b = ground arith
    shows-closed_events d current (j ∷ js) b = ground (
      arith,
      shows-closed_events d current js b,
      shows-closed_events d current js false,
      eq_iff j i,
    )

    Mirrors : List SseEvent × Watcher → Watcher → Type 0
    Mirrors r w = shows c i r.0 (holds c i w) ≡ holds c i r.1

    check_blocks-Mirrors : (d : String) (r : Reads) (w : Watcher) → Mirrors (check_blocks p d r w) w
    unfolding Mirrors check_blocks shows block_events
    check_blocks-Mirrors d r w = ground arith

    -- The events of one chain's alerts turn what was held into what is held.
    alert_events-shows :
        (d : String) (current : List Alert) (prev : List String)
        → let ids = new_set [] (ids_of current) in
          (b : Bool)
          → b ≡ (if str_eq d c then contains i prev else b)
          → shows c i (opened_events p d prev current ++ closed_events p d ids prev) b
            ≡ (if str_eq d c then contains i ids else b)
    unfolding contains
    alert_events-shows d current prev b h =
        let ids = new_set [] (ids_of current) in
        let opened = opened_events p d prev current in
        let one = shows-append opened (closed_events p d ids prev) b in
        let two = shows-opened_events d prev current b in
        let three = shows-closed_events d ids prev (shows c i opened b) in
        let four = contains-new_set [] (ids_of current) in ground (arith, one, two, three, four, h)

    holds-same :
        (d : String) (w : Watcher)
        → holds c i w
          ≡ (if str_eq d c then contains i (or_else (get d w.last_alert_ids) []) else holds c i w)
    holds-same d w = elim (Bool-cases (str_eq d c)) [
      | inl b ↦
          rw (b)
            (ap (λ e. contains i (or_else (get e w.last_alert_ids) [])) (sym ((eq_iff d c).0 b)))
      | inr b ↦ rw (b) refl
    ]

    check_alerts-Mirrors : (d : String) (r : Reads) (w : Watcher) → Mirrors (check_alerts p d r w) w
    unfolding Mirrors check_alerts
    check_alerts-Mirrors d r w = go r.unclosed_alerts refl
      where
        go : (a : Result (List Alert)) → r.unclosed_alerts ≡ a → Mirrors (check_alerts p d r w) w
        go (err e) h = rw (h) (unfold shows in refl)
        go (ok current) h =
            let ids = new_set [] (ids_of current) in
            let prev = or_else (get d w.last_alert_ids) [] in
            let kept = get-set d c ids w.last_alert_ids in
            let events = alert_events-shows d current prev (holds c i w) (holds-same d w) in
            rw (h) (events ∙ ground (arith, kept))

    Mirrors-then :
        (es fs : List SseEvent) (w w1 w2 : Watcher)
        → Mirrors (es, w1) w
        → Mirrors (fs, w2) w1
        → Mirrors (es ++ fs, w2) w
    unfolding Mirrors
    Mirrors-then es fs w w1 w2 a b = shows-append es fs (holds c i w) ∙ ap (shows c i fs) a ∙ b

    poll-Mirrors :
        (chains : List String) (reads : String → Reads) (w : Watcher)
        → Mirrors (poll p chains reads w) w
    unfolding poll
    poll-Mirrors [] reads w = unfold Mirrors in unfold shows in refl
    poll-Mirrors (d ∷ ds) reads w =
        let (blocks, w1) = check_blocks p d (reads d) w in
        let (alerts, w2) = check_alerts p d (reads d) w1 in
        let (rest, w3) = poll p ds reads w2 in
        Mirrors-then (blocks ++ alerts) rest w w2 w3
          (Mirrors-then blocks alerts w w1 w2 (check_blocks-Mirrors d (reads d) w)
            (check_alerts-Mirrors d (reads d) w1))
          (poll-Mirrors ds reads w2)

    polls-Mirrors :
        (chains : List String) (readings : List (String → Reads)) (w : Watcher)
        → Mirrors (polls p chains readings w) w
    unfolding polls
    polls-Mirrors chains [] w = unfold Mirrors in unfold shows in refl
    polls-Mirrors chains (reads ∷ more) w =
        let (events, w1) = poll p chains reads w in
        let (rest, w2) = polls p chains more w1 in
        Mirrors-then events rest w w1 w2 (poll-Mirrors chains reads w)
          (polls-Mirrors chains more w1)

    holds-check_blocks :
        (d : String) (r : Reads) (w : Watcher) → holds c i (check_blocks p d r w).1 ≡ holds c i w
    unfolding check_blocks
    holds-check_blocks d r w = ground arith

    holds-check_alerts :
        (d : String) (r : Reads) (w : Watcher) (current : List Alert)
        → r.unclosed_alerts ≡ ok current
        → holds c i (check_alerts p d r w).1
          ≡ (if str_eq d c then contains i (ids_of current) else holds c i w)
    unfolding check_alerts contains
    holds-check_alerts d r w current h =
        let kept = get-set d c (new_set [] (ids_of current)) w.last_alert_ids in
        let same = contains-new_set [] (ids_of current) in rw (h) (ground (arith, kept, same))

    holds-check_alerts_other :
        (d : String) (r : Reads) (w : Watcher)
        → str_eq d c ≡ false
        → holds c i (check_alerts p d r w).1 ≡ holds c i w
    unfolding check_alerts
    holds-check_alerts_other d r w h = go r.unclosed_alerts refl
      where
        go :
            (a : Result (List Alert))
            → r.unclosed_alerts ≡ a
            → holds c i (check_alerts p d r w).1 ≡ holds c i w
        go (err e) q = rw (q) refl
        go (ok current) q =
            let kept = get-set d c (new_set [] (ids_of current)) w.last_alert_ids in
            rw (q) (ground (arith, kept, h))

    -- A poll that reads the chain's alerts holds those and no others.
    holds-poll :
        (reads : String → Reads) (current : List Alert)
        → (reads c).unclosed_alerts ≡ ok current
        → (chains : List String) (w : Watcher)
        → holds c i (poll p chains reads w).1
          ≡ (if contains c chains then contains i (ids_of current) else holds c i w)
    unfolding poll contains
    holds-poll reads current h [] w = refl
    holds-poll reads current h (d ∷ ds) w =
        let w1 = (check_blocks p d (reads d) w).1 in
        let w2 = (check_alerts p d (reads d) w1).1 in
        let ih = holds-poll reads current h ds w2 in
        let blocks = holds-check_blocks d (reads d) w in
        elim (Bool-cases (str_eq d c)) [
          | inl b ↦
              let read : (reads d).unclosed_alerts ≡ ok current =
                subst (λ e. (reads e).unclosed_alerts ≡ ok current) (sym ((eq_iff d c).0 b)) h in
              ground (arith, ih, blocks, b, holds-check_alerts d (reads d) w1 current read)
          | inr b ↦ ground (arith, ih, blocks, b, holds-check_alerts_other d (reads d) w1 b)
        ]

    polls-append :
        (chains : List String) (readings : List (String → Reads)) (last : String → Reads)
        (w : Watcher)
        → (polls p chains (readings ++ last ∷ []) w).1
          ≡ (poll p chains last (polls p chains readings w).1).1
    unfolding polls
    polls-append chains [] last w = refl
    polls-append chains (reads ∷ more) last w =
        polls-append chains more last (poll p chains reads w).1

    -- After any number of polls, a subscriber that shows an alert from the event of its opening to
    -- the event of its closing shows exactly the alerts that the last poll read as open for the
    -- chain, from a state in which it shows what the watcher holds for open, whatever the earlier
    -- polls read or failed to read, for a chain that is watched and whose open alerts the last
    -- poll could read.
    pub shows-polls :
        (chains : List String) (readings : List (String → Reads)) (last : String → Reads)
        (w : Watcher) (current : List Alert)
        → contains c chains ≡ true
        → (last c).unclosed_alerts ≡ ok current
        → shows c i (polls p chains (readings ++ last ∷ []) w).0 (holds c i w)
          ≡ contains i (ids_of current)
    unfolding Mirrors
    shows-polls chains readings last w current k h =
        polls-Mirrors chains (readings ++ last ∷ []) w
        ∙ ap (holds c i) (polls-append chains readings last w)
        ∙ holds-poll last current h chains (polls p chains readings w).1
        ∙ rw (k) refl
