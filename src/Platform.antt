-- ===== src/Platform.antt =====
-- What the program uses of Node: the codecs of `Buffer`, `Date` and `BigInt`. They are
-- parameters: a record of functions, and a record of the documented round trips.
use cosmad.Prelude.{ℕ, String, List, Option, ◌≡◌}

-- Bytes, a point in time (milliseconds since the epoch) and a non-negative big integer, each with
-- its textual form.
pub record Platform : Type 0 where
  pub to_hex : List ℕ → String  -- buffer.toString("hex")
  pub of_hex : String → List ℕ  -- Buffer.from(text, "hex")
  pub to_base64 : List ℕ → String  -- buffer.toString("base64")
  pub of_base64 : String → List ℕ  -- Buffer.from(text, "base64")
  pub to_iso : ℕ → String  -- date.toISOString()
  pub of_iso : String → ℕ  -- new Date(text)
  pub try_date : String → Option ℕ  -- new Date(text), missing where its time is NaN
  pub utc_year : ℕ → ℕ  -- date.getUTCFullYear()
  pub trim : String → String  -- text.trim()
  pub upper : String → String  -- text.toUpperCase()
  pub to_decimal : ℕ → String  -- n.toString()
  pub of_decimal : String → ℕ  -- BigInt(text)

-- Each text is read back as what was written.
pub record IsLawful (p : Platform) : Type 0 where
  pub hex_back : (b : List ℕ) → p.of_hex (p.to_hex b) ≡ b
  pub base64_back : (b : List ℕ) → p.of_base64 (p.to_base64 b) ≡ b
  pub iso_back : (t : ℕ) → p.of_iso (p.to_iso t) ≡ t
  pub decimal_back : (n : ℕ) → p.of_decimal (p.to_decimal n) ≡ n
