-- ===== src/Engine/Connection.antt =====
-- engine/client.ts: `EngineConnection`, which numbers requests and hands each response to its caller.
pub mod Waiting
use cosmad.Prelude.{
  ℕ, suc, ◌+◌, Option, none, some, List, [], ◌∷◌, ◌≡◌, ◌↔◌, Bool, true, arith, ◌==◌, String,
}
use cosmad.Dict.{Dict, Eq, get, set, delete}
use cosmad.Engine.Protocol.{Body, Message, request, EngineResponse}

pub nat_beq_iff : (a b : ℕ) → ((a == b) ≡ true) ↔ (a ≡ b)
nat_beq_iff a b = ground arith

instance abbrev pub nat_eq : Eq ℕ
nat_eq = record { beq = λ a b. a == b; beq_iff = nat_beq_iff }

-- `nextId` and `pending`; a caller stands for the `resolve` of its promise.
pub record Connection (K : Type 0) : Type 0 where
  pub next_id : ℕ
  pub pending : Dict ℕ K

module _ {K : Type 0} where
  abbrev pub connected : Connection K
  connected = record { next_id = 1; pending = [] }

  -- `request`: the line that is sent, and the connection with its caller waiting.
  unfoldable pub send : K → Body → Connection K → Message × Connection K
  send caller body c = (
    request c.next_id body,
    record { next_id = c.next_id + 1; pending = set c.next_id caller c.pending },
  )

  -- The handler of a line: the caller whose promise the response resolves, if one waits.
  unfoldable pub receive : EngineResponse → Connection K → Option K × Connection K
  receive r c = elim (get r.id c.pending) [
    | none ↦ (none, c)
    | some caller ↦ (some caller, record c { pending = delete r.id c.pending })
  ]
