-- ===== src/Engine/Server/Gate.antt =====
-- engine/server.ts: who may change the database, and what each request is answered with.
use mathlib.Core.List.{map-append}
use cosmad.Prelude.{
  ℕ, String, true, false, ◌&&◌, str_eq, ◌≡◌, refl, ap, ◌∙◌, Option, none, some, List, [], ◌∷◌, ◌++◌,
  map, All, Bool-cases, Option-cases, inl, inr,
}
use cosmad.Outcome.{Result, ok, err}
use cosmad.Platform.{Platform}
use cosmad.Tables.{ChainType}
use cosmad.Dict.{Dict, string_eq, get}
use cosmad.Database.Rwdb.{Rwdb, ReadsKeep}
use cosmad.Engine.Protocol.{
  Body, chain_of, is_write, Value, Role, reader, Message, hello, request, EngineResponse,
}
use cosmad.Engine.Server.{answer, handle, dispatch, handle_line, serve}

answer_keeps {ℓ} :
    {S : Type 0} {A : Type ℓ} (f : A → Value) (r : Result A × S) → (answer f r).1 ≡ r.1
answer_keeps f (ok a, s) = refl
answer_keeps f (err e, s) = refl

-- A message that says hello says it as a reader, or without a role.
abbrev pub IsMeek : Message → Type 0
IsMeek (hello none) = Unit
IsMeek (hello (some role)) = role ≡ "reader"
IsMeek (request id body) = Unit

abbrev request_ids : List Message → List ℕ
request_ids [] = []
request_ids (hello r ∷ ms) = request_ids ms
request_ids (request id body ∷ ms) = id ∷ request_ids ms

module _ {S : Type 0} (p : Platform) (db : Rwdb S) (known : Dict String ChainType) where
  handle_keeps :
      (keeps : ReadsKeep db) (t : ChainType) (body : Body) (s : S)
      → is_write body ≡ false
      → (handle p db t body s).1 ≡ s
  unfolding handle is_write
  handle_keeps keeps t (Body.append_blocks c bs) s e = cc
  handle_keeps keeps t (Body.insert_blocks c bs) s e = cc
  handle_keeps keeps t (Body.insert_alert c a) s e = cc
  handle_keeps keeps u (Body.close_alert c i t) s e = cc
  handle_keeps keeps u (Body.touch_alert_notified c i t n) s e = cc
  handle_keeps keeps t (Body.insert_inactivity c i) s e = cc
  handle_keeps keeps u (Body.end_inactivity c a z t) s e = cc
  handle_keeps keeps t (Body.latest_block c u) s e =
      answer_keeps _ (db.latest_block c u s) ∙ keeps.latest_block_keeps c u s
  handle_keeps keeps t (Body.latest_block_height c) s e =
      answer_keeps _ (db.latest_block_height c s) ∙ keeps.latest_block_height_keeps c s
  handle_keeps keeps t (Body.get_alert c k) s e =
      answer_keeps _ (db.get_alert k s) ∙ keeps.get_alert_keeps k s
  handle_keeps keeps t (Body.get_unclosed_alerts c l n) s e =
      answer_keeps _ (db.get_unclosed_alerts c l n s) ∙ keeps.get_unclosed_alerts_keeps c l n s
  handle_keeps keeps t (Body.get_open_inactivity c) s e =
      answer_keeps _ (db.get_open_inactivity c s) ∙ keeps.get_open_inactivity_keeps c s
  handle_keeps keeps t (Body.get_inactivity_history c l) s e =
      answer_keeps _ (db.get_inactivity_history c l s) ∙ keeps.get_inactivity_history_keeps c l s
  handle_keeps keeps t (Body.get_block_by_height c h u) s e =
      answer_keeps _ (db.get_block_by_height c (p.of_decimal h) t s)
      ∙ keeps.get_block_by_height_keeps c (p.of_decimal h) t s
  handle_keeps keeps t (Body.get_block_by_range c a z u) s e =
      answer_keeps _ (db.get_block_by_range c (p.of_decimal a) (p.of_decimal z) t s)
      ∙ keeps.get_block_by_range_keeps c (p.of_decimal a) (p.of_decimal z) t s
  handle_keeps keeps t (Body.get_block_stats c a z) s e =
      answer_keeps _ (db.get_block_stats c (p.of_decimal a) (p.of_decimal z) s)
      ∙ keeps.get_block_stats_keeps c (p.of_decimal a) (p.of_decimal z) s
  handle_keeps keeps t (Body.get_chain_signed_percentage c n) s e =
      answer_keeps _ (db.get_chain_signed_percentage c n s)
      ∙ keeps.get_chain_signed_percentage_keeps c n s
  handle_keeps keeps t (Body.get_daily_signed_stats c n) s e =
      answer_keeps _ (db.get_daily_signed_stats c n s) ∙ keeps.get_daily_signed_stats_keeps c n s

  dispatch_keeps :
      (keeps : ReadsKeep db) (body : Body) (s : S)
      → is_write body ≡ false
      → (dispatch p db known body s).1 ≡ s
  unfolding dispatch
  dispatch_keeps keeps body s e = elim (Option-cases (get (chain_of body) known)) [
    | inl n ↦ rw (n, dispatch)
    | inr (t, f) ↦ rw (f, dispatch) (handle_keeps keeps t body s e)
  ]

  -- The connection's role is the reader's, or it has none.
  abbrev IsReader : Option Role → Type 0
  IsReader none = Unit
  IsReader (some role) = role ≡ "reader"

  line_keeps :
      (keeps : ReadsKeep db) (m : Message) (role : Option Role) (s : S)
      → IsMeek m
      → IsReader role
      → ((handle_line p db known m role s).2 ≡ s) × IsReader (handle_line p db known m role s).1
  unfolding handle_line
  line_keeps keeps (hello none) role s meek r = (refl, tt)
  line_keeps keeps (hello (some new)) role s meek r = (refl, meek)
  line_keeps keeps (request id body) none s meek r = (refl, tt)
  line_keeps keeps (request id body) (some role) s meek r =
      let is_reader : str_eq role reader ≡ true = ap (λ x. str_eq x reader) r in
      elim (Bool-cases (is_write body)) [
        | inl e ↦ rw (is_reader, e) (refl, r)
        | inr e ↦ rw (is_reader, e) (dispatch_keeps keeps body s e, r)
      ]

  serve_from :
      (keeps : ReadsKeep db) (ms : List Message) (role : Option Role) (s : S)
      → All IsMeek ms
      → IsReader role
      → (serve p db known ms role s).2 ≡ s
  unfolding serve
  serve_from keeps [] role s meek r = refl
  serve_from keeps (m ∷ ms) role s meek r =
      let (same, r') = line_keeps keeps m role s meek.0 r in
      serve_from keeps ms (handle_line p db known m role s).1 (handle_line p db known m role s).2
        meek.1 r'
      ∙ same

  -- A connection whose every hello names the role "reader", or none, leaves the database as it
  -- was, whatever else it sends and in whatever order, before its handshake and after it, with a
  -- database whose queries keep it.
  pub serve-reader :
      (keeps : ReadsKeep db) (ms : List Message) (s : S)
      → All IsMeek ms
      → (serve p db known ms none s).2 ≡ s
  serve-reader keeps ms s meek = serve_from keeps ms none s meek tt

  line_answers :
      (m : Message) (ms : List Message) (role : Option Role) (s : S)
      → map (λ r. r.id) (handle_line p db known m role s).0 ++ request_ids ms ≡ request_ids (m ∷ ms)
  unfolding handle_line
  line_answers (hello r) ms role s = refl
  line_answers (request id body) ms none s = refl
  line_answers (request id body) ms (some role) s =
      elim (Bool-cases (str_eq role reader && is_write body)) [ inl e ↦ rw e | inr e ↦ rw e ]

  -- Each request is answered once, under its own number and in the order of the requests, refused
  -- or not, on a connection that handles one line at a time.
  pub serve-answers :
      (ms : List Message) (role : Option Role) (s : S)
      → map (λ r. r.id) (serve p db known ms role s).0 ≡ request_ids ms
  unfolding serve
  serve-answers [] role s = refl
  serve-answers (m ∷ ms) role s =
      let now = handle_line p db known m role s in
      map-append (λ (r : EngineResponse). r.id) now.0 (serve p db known ms now.1 now.2).0
      ∙ (ap (λ (l : List ℕ). map (λ (r : EngineResponse). r.id) now.0 ++ l)
            (serve-answers ms now.1 now.2)
          ∙ line_answers m ms role s)
