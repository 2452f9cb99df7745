-- ===== src/Socket.antt =====
-- engine/socket.ts: newline-delimited framing over a stream of chunks.
pub mod Framing
use cosmad.Prelude.{
  ℕ, zero, suc, List, [], ◌∷◌, ◌++◌, ◌==◌, if◌then◌else◌, Option, none, some, length,
}

abbrev pub newline : ℕ
newline = 10

-- `buffer.indexOf("\n")` with the two slices around it: the line before, the rest behind.
unfoldable pub split_line : List ℕ → Option (List ℕ × List ℕ)
split_line [] = none
split_line (c ∷ s) =
    let rest = split_line s in
    if c == newline
    then some ([], s)
    else elim rest [ none ↦ none | some (line, tail) ↦ some (c ∷ line, tail) ]

abbrev emit : List ℕ → List (List ℕ) → List (List ℕ)
emit [] lines = lines
emit (c ∷ s) lines = (c ∷ s) ∷ lines

-- The `while` loop of a `data` event: the lines handed to the handler, and what stays in the
-- buffer. Each round drops at least the newline, so the buffer's length is fuel enough.
unfoldable pub drain : ℕ → List ℕ → List (List ℕ) × List ℕ
drain zero buffer = ([], buffer)
drain (suc fuel) buffer = elim (split_line buffer) [
  | none ↦ ([], buffer)
  | some (line, rest) ↦ let (lines, left) = drain fuel rest in (emit line lines, left)
]

-- `sendLine`: the JSON text of the message and a newline.
unfoldable pub send_line : List ℕ → List ℕ
send_line message = message ++ newline ∷ []

-- What arrives is bytes; `decode` is `chunk.toString("utf8")`, applied to each chunk by itself.
module _ (decode : List ℕ → List ℕ) where
  -- One `data` event: the lines for the handler and the new buffer.
  unfoldable pub on_data : List ℕ → List ℕ → List (List ℕ) × List ℕ
  on_data buffer chunk = let joined = buffer ++ decode chunk in drain (suc (length joined)) joined

  -- Every `data` event in turn.
  unfoldable pub on_lines : List ℕ → List (List ℕ) → List (List ℕ) × List ℕ
  on_lines buffer [] = ([], buffer)
  on_lines buffer (chunk ∷ chunks) =
      let (lines, left) = on_data buffer chunk in
      let (more, last) = on_lines left chunks in (lines ++ more, last)
