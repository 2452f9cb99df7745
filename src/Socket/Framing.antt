-- ===== src/Socket/Framing.antt =====
-- engine/socket.ts: the framing against a reference receiver, for streams in any chunks.
use mathlib.Core.List.{append-nil, append_assoc, flatten}
use cosmad.Prelude.{
  ℕ, zero, suc, ◌<◌, ◌≡◌, ◌≢◌, refl, List, [], ◌∷◌, ◌++◌, arith, ◌==◌, if◌then◌else◌, none, some,
  length, All, All-append, All-of_append, Bool-cases, Option-cases, inl, inr, sym,
}
use cosmad.Socket.{newline, split_line, emit, drain, send_line, on_data, on_lines}

-- A reference receiver: it reads one character after another, and holds the line so far.
pub scan : List ℕ → List ℕ → List (List ℕ) × List ℕ
scan line [] = ([], line)
scan line (c ∷ s) =
    let fresh = scan [] s in
    let longer = scan (line ++ c ∷ []) s in
    if c == newline then (emit line fresh.0, fresh.1) else longer

abbrev FreeOfNewline : List ℕ → Type 0
FreeOfNewline = All (λ c. c ≢ newline)

scan-split_none : (line s : List ℕ) → split_line s ≡ none → scan line s ≡ ([], line ++ s)
unfolding scan split_line
scan-split_none line [] h = rw append-nil
scan-split_none line (c ∷ s) h =
    ground (arith, scan-split_none (line ++ c ∷ []) s, append_assoc line (c ∷ []) s)

scan-split_some :
    (line s before rest : List ℕ)
    → split_line s ≡ some (before, rest)
    → scan line s ≡ (emit (line ++ before) (scan [] rest).0, (scan [] rest).1)
unfolding scan split_line
scan-split_some line [] before rest h = cc
scan-split_some line (c ∷ s) before rest h = elim (Option-cases (split_line s)) [
  | inl e ↦ ground (arith, append-nil line)
  | inr (p, e) ↦ ground (
    arith,
    append-nil line,
    append_assoc line (c ∷ []) p.0,
    scan-split_some (line ++ c ∷ []) s p.0 p.1 e,
  )
]

split_line-shorter :
    (s before rest : List ℕ) → split_line s ≡ some (before, rest) → length rest < length s
unfolding split_line
split_line-shorter [] before rest h = cc
split_line-shorter (c ∷ s) before rest h = elim (Option-cases (split_line s)) [
  | inl e ↦ ground arith
  | inr (p, e) ↦ ground (arith, split_line-shorter s p.0 p.1 e)
]

-- With fuel for every character the loop does what the reference receiver does.
drain-eq-scan : (fuel : ℕ) (s : List ℕ) → length s < fuel → drain fuel s ≡ scan [] s
unfolding drain
drain-eq-scan zero s h = absurd (omega arith)
drain-eq-scan (suc fuel) s h = elim (Option-cases (split_line s)) [
  | inl e ↦ rw (e, drain) (sym (scan-split_none [] s e))
  | inr (p, e) ↦ ground (
    arith,
    scan-split_some [] s p.0 p.1 e,
    drain-eq-scan fuel p.1 (omega (arith, split_line-shorter s p.0 p.1 e)),
  )
]

emit-append : (line : List ℕ) (xs ys : List (List ℕ)) → emit line (xs ++ ys) ≡ emit line xs ++ ys
emit-append [] xs ys = refl
emit-append (c ∷ s) xs ys = refl

-- Reading goes on from the line so far.
scan-append :
    (line s t : List ℕ)
    → scan line (s ++ t)
      ≡ ((scan line s).0 ++ (scan (scan line s).1 t).0, (scan (scan line s).1 t).1)
unfolding scan
scan-append line [] t = refl
scan-append line (c ∷ s) t = elim (Bool-cases (c == newline)) [
  | inl e ↦ rw (e, scan-append [] s t, emit-append line (scan [] s).0)
  | inr e ↦ rw e (scan-append (line ++ c ∷ []) s t)
]

-- The buffer never holds a newline between two events.
scan-left : (line s : List ℕ) → FreeOfNewline line → FreeOfNewline (scan line s).1
unfolding scan
scan-left line [] h = h
scan-left line (c ∷ s) h = elim (Bool-cases (c == newline)) [
  | inl e ↦ rw e (scan-left [] s tt)
  | inr e ↦ rw e (
      scan-left (line ++ c ∷ []) s
        (All-append (λ d. d ≢ newline) line (c ∷ []) h (ground arith, tt)))
]

scan-held : (line s t : List ℕ) → FreeOfNewline s → scan line (s ++ t) ≡ scan (line ++ s) t
unfolding scan
scan-held line [] t h = rw append-nil
scan-held line (c ∷ s) t h =
    ground (arith, scan-held (line ++ c ∷ []) s t h.1, append_assoc line (c ∷ []) s)

abbrev pub joined : (List ℕ → List ℕ) → List (List ℕ) → List ℕ
joined decode [] = []
joined decode (chunk ∷ chunks) = decode chunk ++ joined decode chunks

on_data-eq-scan :
    (decode : List ℕ → List ℕ) (buffer chunk : List ℕ)
    → FreeOfNewline buffer
    → on_data decode buffer chunk ≡ scan buffer (decode chunk)
unfolding on_data
on_data-eq-scan decode buffer chunk h =
    rw
      (drain-eq-scan (suc (length (buffer ++ decode chunk))) (buffer ++ decode chunk) (omega arith))
      (scan-held [] buffer (decode chunk) h)

-- However the stream is cut into chunks, the lines and the rest are those of the decoded stream as
-- a whole read character by character, from a buffer that holds no newline.
pub on_lines-eq-scan :
    (decode : List ℕ → List ℕ) (buffer : List ℕ) (chunks : List (List ℕ))
    → FreeOfNewline buffer
    → on_lines decode buffer chunks ≡ scan buffer (joined decode chunks)
unfolding on_lines
on_lines-eq-scan decode buffer [] h = unfold scan in refl
on_lines-eq-scan decode buffer (chunk ∷ chunks) h = rw (on_data-eq-scan decode buffer chunk h) (
    rw
      (on_lines-eq-scan decode (scan buffer (decode chunk)).1 chunks
        (scan-left buffer (decode chunk) h))
      (sym (scan-append buffer (decode chunk) (joined decode chunks))))

-- What a sender writes for a list of messages.
abbrev stream : List (List ℕ) → List ℕ
stream [] = []
stream (m ∷ ms) = send_line m ++ stream ms

-- A message as `JSON.stringify` writes it: ASCII, not empty, and with no newline.
abbrev IsMessage : List ℕ → Type 0
IsMessage m = (m ≢ []) × FreeOfNewline m × All (λ c. c < 128) m

scan-newline : (m s : List ℕ) → m ≢ [] → scan m (newline ∷ s) ≡ (m ∷ (scan [] s).0, (scan [] s).1)
unfolding scan
scan-newline [] s h = absurd (h refl)
scan-newline (c ∷ m) s h = refl

scan-stream : (ms : List (List ℕ)) → All IsMessage ms → scan [] (stream ms) ≡ (ms, [])
unfolding send_line
scan-stream [] h = unfold scan in refl
scan-stream (m ∷ ms) h = rw (append_assoc m (newline ∷ []) (stream ms)) (
    rw (scan-held [] m (newline ∷ stream ms) h.0.1)
      (rw (scan-newline m (stream ms) h.0.0) (rw (scan-stream ms h.1))))

-- The bytes of a stream of ASCII messages decode to themselves.
joined-stream :
    (decode : List ℕ → List ℕ)
    → ((b : List ℕ) → All (λ c. c < 128) b → decode b ≡ b)
    → (chunks : List (List ℕ)) → All (λ c. c < 128) (flatten chunks)
    → joined decode chunks ≡ flatten chunks
unfolding flatten
joined-stream decode same [] h = refl
joined-stream decode same (chunk ∷ chunks) h =
    let (here, there) = All-of_append (λ c. c < 128) chunk (flatten chunks) h in
    rw (same chunk here, joined-stream decode same chunks there)

stream_ascii : (ms : List (List ℕ)) → All IsMessage ms → All (λ c. c < 128) (stream ms)
unfolding send_line
stream_ascii [] h = tt
stream_ascii (m ∷ ms) h =
    All-append (λ c. c < 128) (m ++ newline ∷ []) (stream ms)
      (All-append (λ c. c < 128) m (newline ∷ []) h.0.2 (omega arith, tt)) (stream_ascii ms h.1)

-- Every message that a sender framed is handed to the handler whole, once and in order, and
-- nothing stays in the buffer, wherever the stream was cut into chunks, for ASCII messages that
-- are not empty and hold no newline, and a decoder that maps ASCII bytes to themselves.
pub on_lines-send_line :
    (decode : List ℕ → List ℕ)
    → ((b : List ℕ) → All (λ c. c < 128) b → decode b ≡ b)
    → (ms chunks : List (List ℕ)) → All IsMessage ms
    → flatten chunks ≡ stream ms
    → on_lines decode [] chunks ≡ (ms, [])
on_lines-send_line decode same ms chunks h cut =
    rw (on_lines-eq-scan decode [] chunks tt) (
      rw (joined-stream decode same chunks (rw cut (stream_ascii ms h)))
        (rw cut (scan-stream ms h)))
