-- ===== src/Worker/Start.antt =====
-- dp/chain_worker.ts: what a chain's worker looks up when it starts, and the timer that polls.
use Prim.Native.Char.{code}
use cosmad.Prelude.{
  ℕ, zero, suc, String, Bool, true, false, Option, none, some, List, [], ◌∷◌, ◌++◌, leb, ◌==◌, ◌&&◌,
  ◌||◌, or_else, if◌then◌else◌, str_eq,
}
use cosmad.Outcome.{Result, Response}
use cosmad.Platform.{Platform}
use cosmad.Dict.{contains, string_eq}
use cosmad.Database.{WriteDb}
use cosmad.Alert.Types.{AlertConfig, AlertEvent}
use cosmad.Worker.Types.{ChainConfig, Identity, bft_identity, tm2_identity}
use cosmad.Worker.Poll.{Nodes}
use cosmad.Worker.Cycle.{Cycle, EndpointHealth, do_poll}
use cosmad.Query.Valset.{ValSet}
pub mod Run

-- `DEFAULT_SIGNING_WINDOW_SIZE`
abbrev pub default_signing_window_size : ℕ
default_signing_window_size = 10000

-- `resolveSigningWindowSize`; `params` is what `getSlashingParams` answers.
unfoldable pub resolve_signing_window_size : ChainConfig → Response ℕ → ℕ
resolve_signing_window_size chain params = elim chain.alert_config.signing_window_size [
  | some size ↦ size
  | none ↦ elim chain.identity [
    | tm2_identity a b ↦ default_signing_window_size
    | bft_identity a b ↦ elim params [
      | Response.ok window ↦ window
      | Response.fail e ↦ default_signing_window_size
    ]
  ]
]

-- `[0-9a-fA-F]`, by the code of a character.
abbrev pub is_hex_digit : ℕ → Bool
is_hex_digit c = (leb 48 c && leb c 57) || (leb 97 c && leb c 102) || (leb 65 c && leb c 70)

-- `/^[0-9a-fA-F]{n}$/`
unfoldable pub is_hex : ℕ → String → Bool
is_hex zero String.[] = true
is_hex zero (String.◌∷◌ c s) = false
is_hex (suc n) String.[] = false
is_hex (suc n) (String.◌∷◌ c s) = let rest = is_hex n s in is_hex_digit (code c) && rest

-- `bech32` is the library's decoder of an address to its bytes, or none where it throws.
module _ (p : Platform) (bech32 : String → Option (List ℕ)) where
  -- `bech32ValconsToHex`
  unfoldable pub bech32_valcons_to_hex : String → Option String
  bech32_valcons_to_hex address = elim (bech32 address) [
    | none ↦ none
    | some bytes ↦ some (p.upper (p.to_hex bytes))
  ]

  -- `consensusAddressToHex`
  unfoldable pub consensus_address_to_hex : String → Option String
  unfolding is_hex bech32_valcons_to_hex
  consensus_address_to_hex address =
      if is_hex 40 address then some (p.upper address) else bech32_valcons_to_hex address

  -- The loop over the validators.
  unfoldable pub add_validators : List String → List String → List String
  unfolding consensus_address_to_hex contains
  add_validators [] hexes = hexes
  add_validators (v ∷ vs) hexes = elim (consensus_address_to_hex v) [
    | none ↦ add_validators vs hexes
    | some hex ↦ add_validators vs (if contains hex hexes then hexes else hexes ++ hex ∷ [])
  ]

  -- `fetchActiveSetHex`; `valset` is what `getValset` answers.
  unfoldable pub fetch_active_set_hex : ChainConfig → Response ValSet → Option (List String)
  unfolding add_validators
  fetch_active_set_hex chain valset = elim chain.identity [
    | tm2_identity a b ↦ none
    | bft_identity a b ↦ elim valset [
      | Response.fail e ↦ none
      | Response.ok set ↦ some (add_validators set.validators [])
    ]
  ]

  -- `valconsHex`; an address that does not decode makes the start throw.
  unfoldable pub valcons_hex_of : ChainConfig → Result (Option String)
  unfolding bech32_valcons_to_hex
  valcons_hex_of chain = elim chain.identity [
    | tm2_identity a b ↦ Result.ok none
    | bft_identity a b ↦ if str_eq b "" then Result.ok none else elim (bech32_valcons_to_hex b) [
      | none ↦ Result.err "invalid address"
      | some hex ↦ Result.ok (some hex)
    ]
  ]

-- What the start finds out once.
pub record Started : Type 0 where
  pub valcons_hex : Option String
  pub signing_window_size : ℕ
  pub active_set_hex : Option (List String)

-- The part of `runChainWorker` before the timer: `height` is the answer to `getLatestCommit`, and
-- `valset h` to `getValset` at that height.
unfoldable pub start :
    Platform
    → (String → Option (List ℕ))
    → ChainConfig
    → (params : Response ℕ) → (height : Response ℕ) → (valset : ℕ → Response ValSet)
    → Result Started
unfolding valcons_hex_of resolve_signing_window_size fetch_active_set_hex
start p bech32 chain params height valset = elim (valcons_hex_of p bech32 chain) [
  | Result.err e ↦ Result.err e
  | Result.ok hex ↦ Result.ok (record {
    valcons_hex = hex;
    signing_window_size = resolve_signing_window_size chain params;
    active_set_hex = elim height [
      | Response.ok h ↦ fetch_active_set_hex p bech32 chain (valset h)
      | Response.fail e ↦ none
    ];
  })
]

-- What the world gives to one poll.
pub record Round : Type 0 where
  pub now : ℕ
  pub ids : ℕ → String
  pub endpoint_ids : ℕ → String
  pub nodes : Nodes
  pub rpc_health : Option (List EndpointHealth)
  pub api_health : Option (List EndpointHealth)

-- The timer fires, or the first of the polls that run comes to its end.
pub data Tick : Type 0 where
  fired : Round → Tick
  ended : Tick

-- The flag `polling`, the polls that run, what the worker holds, and the events handed to the
-- dispatcher so far.
pub record Loop (S : Type 0) : Type 0 where
  pub polling : Bool
  pub under_way : List Round
  pub cycle : Cycle S
  pub sent : List AlertEvent

module _ {S : Type 0} (p : Platform) (db : WriteDb S) (chain : ChainConfig) (s : Started) where
  -- `poll`, with its `finally`. The work of a poll is entered where it ends.
  unfoldable pub tick : Tick → Loop S → Loop S
  unfolding do_poll
  tick (fired r) l =
      if l.polling then l else record l { polling = true; under_way = l.under_way ++ r ∷ [] }
  tick ended l = elim l.under_way [
    | [] ↦ l
    | r ∷ rs ↦
        let (events, after) =
          do_poll p db chain r.nodes r.rpc_health r.api_health r.now r.ids r.endpoint_ids
            s.valcons_hex s.signing_window_size s.active_set_hex l.cycle in
        record { polling = false; under_way = rs; cycle = after; sent = l.sent ++ events }
  ]

  unfoldable pub ticks : List Tick → Loop S → Loop S
  unfolding tick
  ticks [] l = l
  ticks (t ∷ ts) l = ticks ts (tick t l)
