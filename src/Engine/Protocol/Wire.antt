-- ===== src/Engine/Protocol/Wire.antt =====
-- engine/protocol.ts: the converters to and from the wire shapes, one after the other.
use cosmad.Prelude.{ℕ, String, ◌≡◌, refl, sym, ap, ◌∙◌, Option, none, some, List}
use cosmad.Outcome.{Result, ok}
use cosmad.Platform.{Platform, IsLawful}
use cosmad.Tables.{
  ChainType, bft, tm2, text, bytes, hash_fn, num_check, signature_fn, built, Block, new_block-built,
  Alert, new_alert, ValidatorInactivity,
}
use cosmad.Engine.Protocol.{
  optional, hash_to_wire, block_to_wire, wire_to_block, alert_to_wire, wire_to_alert,
  inactivity_to_wire, wire_to_inactivity,
}

optional_back :
    {A : Type 0} (f : A → String) (g : String → A)
    → ((a : A) → g (f a) ≡ a)
    → (o : Option A) → optional g (optional f o) ≡ o
optional_back f g back none = refl
optional_back f g back (some a) = ap some (back a)

-- What a worker's blocks are: of the chain's type, with `signed` in range.
pub record IsWireable (t : ChainType) (b : Block) : Type 0 where
  pub of_type : b.chain_type ≡ t
  pub in_range : num_check b.signed ≡ ok b.signed

module _ (p : Platform) (lawful : IsLawful p) where
  hash_back : (t : ChainType) (h : List ℕ) → hash_fn p t (text (hash_to_wire p t h)) ≡ h
  unfolding hash_fn hash_to_wire
  hash_back bft h = lawful.hex_back h
  hash_back tm2 h = lawful.base64_back h

  signature_back :
      (o : Option (List ℕ))
      → signature_fn p (optional (λ t. bytes (p.of_base64 t)) (optional p.to_base64 o)) ≡ o
  unfolding signature_fn
  signature_back none = refl
  signature_back (some b) = ap some (lawful.base64_back b)

  same_type : (t : ChainType) (b : Block) → b.chain_type ≡ t → record b { chain_type = t } ≡ b
  same_type t b e = ap (λ u. record b { chain_type = u }) (sym e)

  -- A block that is of the chain's type, with `signed` between -1 and 1, is read back from its
  -- wire shape as it was, with codecs that read back what they wrote.
  pub wire_to_block-block_to_wire :
      (t : ChainType) (b : Block) → IsWireable t b → wire_to_block p t (block_to_wire p t b) ≡ ok b
  unfolding wire_to_block block_to_wire
  wire_to_block-block_to_wire t b fits =
      new_block-built p
        (record {
          chain_id = b.chain_id;
          height = p.of_decimal (p.to_decimal b.height);
          hash = text (hash_to_wire p t b.hash);
          time = p.of_iso (p.to_iso b.time);
          signed = b.signed;
          signature = optional (λ t. bytes (p.of_base64 t)) (optional p.to_base64 b.signature);
          precommitted = b.precommitted;
          chain_type = t;
        })
        b.signed fits.in_range
      ∙ unfold built in
        rw
          (
            lawful.decimal_back b.height,
            lawful.iso_back b.time,
            hash_back t b.hash,
            signature_back b.signature,
          )
          (ap Result.ok (same_type t b fits.of_type))

  -- An alert is read back from its wire shape as it was, with codecs that read back what they
  -- wrote.
  pub wire_to_alert-alert_to_wire : (a : Alert) → wire_to_alert p (alert_to_wire p a) ≡ a
  unfolding wire_to_alert alert_to_wire new_alert
  wire_to_alert-alert_to_wire a = rw (
    lawful.iso_back a.opened_at,
    optional_back p.to_iso p.of_iso lawful.iso_back a.closed_at,
    optional_back p.to_iso p.of_iso lawful.iso_back a.last_notified_at,
  )

  -- A period of inactivity is read back from its wire shape as it was, with codecs that read back
  -- what they wrote.
  pub wire_to_inactivity-inactivity_to_wire :
      (i : ValidatorInactivity) → wire_to_inactivity p (inactivity_to_wire p i) ≡ i
  unfolding wire_to_inactivity inactivity_to_wire
  wire_to_inactivity-inactivity_to_wire i = rw (
    lawful.decimal_back i.height,
    lawful.iso_back i.time,
    optional_back p.to_iso p.of_iso lawful.iso_back i.jailed_until,
    optional_back p.to_decimal p.of_decimal lawful.decimal_back i.end_height,
    optional_back p.to_iso p.of_iso lawful.iso_back i.end_time,
  )
