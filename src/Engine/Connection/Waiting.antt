-- ===== src/Engine/Connection/Waiting.antt =====
-- engine/client.ts: `EngineConnection` over any history of requests and responses.
use cosmad.Prelude.{
  ℕ, suc, ◌≡◌, refl, ap, ◌∙◌, Option, none, some, List, [], ◌∷◌, ◌==◌, arith, Option-cases, inl,
  inr, if◌then◌else◌,
}
use cosmad.Dict.{get, get-set, get-delete}
use cosmad.Engine.Protocol.{Body, request, EngineResponse}
use cosmad.Engine.Connection.{nat_eq, Connection, connected, send, receive}

-- What happened on a connection.
pub data Event (K : Type 0) : Type 0 where
  sent : K → Body → Event K
  received : EngineResponse → Event K

module _ {K : Type 0} where
  received_id : (r : EngineResponse) (c : Connection K) → (receive r c).1.next_id ≡ c.next_id
  unfolding receive
  received_id r c = elim (Option-cases (get r.id c.pending)) [
    | inl e ↦ ground arith
    | inr (k, e) ↦ ground arith
  ]

  received_pending :
      (i : ℕ) (r : EngineResponse) (c : Connection K)
      → get i (receive r c).1.pending ≡ (if r.id == i then none else get i c.pending)
  unfolding receive
  received_pending i r c = elim (Option-cases (get r.id c.pending)) [
    | inl e ↦ ground (arith)
    | inr (k, e) ↦ ground (arith, get-delete r.id i c.pending)
  ]

  resolved : (r : EngineResponse) (c : Connection K) → (receive r c).0 ≡ get r.id c.pending
  unfolding receive
  resolved r c = elim (Option-cases (get r.id c.pending)) [
    | inl e ↦ ground arith
    | inr (k, e) ↦ ground arith
  ]

  -- The connection after these events, the newest first.
  unfoldable pub after : List (Event K) → Connection K
  after [] = connected
  after (sent caller body ∷ earlier) = (send caller body (after earlier)).1
  after (received r ∷ earlier) = (receive r (after earlier)).1

  abbrev pub sent_count : List (Event K) → ℕ
  sent_count [] = 0
  sent_count (sent caller body ∷ earlier) = suc (sent_count earlier)
  sent_count (received r ∷ earlier) = sent_count earlier

  -- Who sent the i-th request, counted from 1, if no response with that number came since.
  abbrev pub waiting : ℕ → List (Event K) → Option K
  waiting i [] = none
  waiting i (sent caller body ∷ earlier) =
      if suc (sent_count earlier) == i then some caller else waiting i earlier
  waiting i (received r ∷ earlier) = if r.id == i then none else waiting i earlier

  next_id-after : (events : List (Event K)) → (after events).next_id ≡ suc (sent_count events)
  unfolding after send
  next_id-after [] = refl
  next_id-after (sent caller body ∷ earlier) = rw (next_id-after earlier) (omega arith)
  next_id-after (received r ∷ earlier) = received_id r (after earlier) ∙ next_id-after earlier

  pending-after :
      (i : ℕ) (events : List (Event K)) → get i (after events).pending ≡ waiting i events
  unfolding after send
  pending-after i [] = unfold get in refl
  pending-after i (sent caller body ∷ earlier) =
      get-set (after earlier).next_id i caller (after earlier).pending
      ∙ rw (next_id-after earlier, pending-after i earlier)
  pending-after i (received r ∷ earlier) =
      received_pending i r (after earlier) ∙ rw (pending-after i earlier)

  -- A response resolves the promise of the caller who sent the request of its number, if none with
  -- that number came since, and of nobody else, whatever was sent and received before and in
  -- whatever order the responses come; and the next request takes the next number.
  pub receive-waiting :
      (events : List (Event K)) (r : EngineResponse) (caller : K) (body : Body)
      → ((receive r (after events)).0 ≡ waiting r.id events)
        × ((send caller body (after events)).0 ≡ request (suc (sent_count events)) body)
  unfolding send
  receive-waiting events r caller body = (
    resolved r (after events) ∙ pending-after r.id events,
    ap (λ n. request n body) (next_id-after events),
  )
