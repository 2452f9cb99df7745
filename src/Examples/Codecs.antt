-- ===== src/Examples/Codecs.antt =====
-- Codecs that read back what they write, for the example's chain.
use Prim.Native.Char.{code}
use cosmad.Prelude.{
  ℕ, zero, suc, String, ◌≡◌, refl, ap, ◌∙◌, List, [], ◌∷◌, ◌==◌, none, if◌then◌else◌,
}
use cosmad.Platform.{Platform, IsLawful}

-- n times the letter x, before a text.
unfoldable pub unary : ℕ → String → String
unary zero s = s
unary (suc n) s = String.◌∷◌ "x" (unary n s)

-- The numbers of a list, each closed by an o.
unfoldable pub write : List ℕ → String
unfolding unary
write [] = ""
write (n ∷ ns) = unary n (String.◌∷◌ "o" (write ns))

unfoldable pub bump : List ℕ → List ℕ
bump [] = []
bump (n ∷ ns) = suc n ∷ ns

unfoldable pub read : String → List ℕ
unfolding bump
read String.[] = []
read (String.◌∷◌ c s) = let rest = read s in if code c == 120 then bump rest else 0 ∷ rest

unfoldable pub head_or_zero : List ℕ → ℕ
head_or_zero [] = 0
head_or_zero (n ∷ ns) = n

read-unary : (n : ℕ) (s : String) → read (unary n (String.◌∷◌ "o" s)) ≡ n ∷ read s
unfolding read unary
read-unary zero s = refl
read-unary (suc n) s = ap bump (read-unary n s)

read-write : (ns : List ℕ) → read (write ns) ≡ ns
unfolding write
read-write [] = unfold read in refl
read-write (n ∷ ns) = read-unary n (write ns) ∙ ap (λ l. n ∷ l) (read-write ns)

abbrev pub lawful_codecs : Platform
lawful_codecs = record {
  to_hex = write;
  of_hex = read;
  to_base64 = write;
  of_base64 = read;
  to_iso = λ t. write (t ∷ []);
  of_iso = λ s. head_or_zero (read s);
  try_date = λ s. none;
  utc_year = λ t. 1970;
  trim = λ s. s;
  upper = λ s. s;
  to_decimal = λ n. write (n ∷ []);
  of_decimal = λ s. head_or_zero (read s);
}

one_back : (n : ℕ) → head_or_zero (read (write (n ∷ []))) ≡ n
unfolding head_or_zero
one_back n = ap head_or_zero (read-write (n ∷ []))

pub lawful_codecs-IsLawful : IsLawful lawful_codecs
lawful_codecs-IsLawful = record {
  hex_back = read-write;
  base64_back = read-write;
  iso_back = one_back;
  decimal_back = one_back;
}
