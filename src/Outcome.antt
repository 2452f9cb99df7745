-- ===== src/Outcome.antt =====
-- The two result shapes of the program: pkgs/models/result.ts and query/response.ts.
use cosmad.Prelude.{String, Option, Bool, true, false}

-- `Result<T, Error>`: an `Error` is its message.
pub data Result {ℓ} (A : Type ℓ) : Type ℓ where
  ok : A → Result A
  err : String → Result A

-- `Response<T>` of a query. `problemsByPath` is written by the schema checks and read by nobody;
-- it is left out.
pub data Response {ℓ} (A : Type ℓ) : Type ℓ where
  ok : A → Response A
  fail : Option String → Response A

module _ {ℓ} {A : Type ℓ} where
  abbrev pub is_ok : Response A → Bool
  is_ok (Response.ok a) = true
  is_ok (Response.fail e) = false
