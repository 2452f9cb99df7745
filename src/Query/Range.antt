-- ===== src/Query/Range.antt =====
-- query/index.ts: `getRangeCommits`, batches of at most `rangeChunkSize` requests.
use mathlib.Core.List.{map-append}
use cosmad.Prelude.{
  ℕ, zero, suc, ◌-◌, ◌<◌, ◌≤◌, ◌≡◌, refl, sym, ap, ◌∙◌, String, some, List, [], ◌∷◌, ◌++◌, map,
  take, drop, length, take-append-drop, length-take, length-drop, All, arith,
}
use cosmad.Outcome.{Response, fail}
use cosmad.Worker.Types.{Commit}
use cosmad.Worker.Collect.Contiguous.{count_up, Answers}

-- One settled promise.
pub data Settled : Type 0 where
  fulfilled : Response Commit → Settled
  rejected : String → Settled

abbrev pub response_of : Settled → Response Commit
response_of (fulfilled r) = r
response_of (rejected reason) = fail (some reason)

-- The slices of the loop `for (i = 0; i < heights.length; i += chunk)`. A chunk size of 0 would
-- never end; the configuration asks for more than 0.
unfoldable pub chunks : ℕ → ℕ → List ℕ → List (List ℕ)
chunks zero size hs = []
chunks (suc fuel) size [] = []
chunks (suc fuel) size (h ∷ hs) =
    let rest = chunks fuel size (drop size (h ∷ hs)) in take size (h ∷ hs) ∷ rest

-- `fetch h` is the settled request for height h; a chunk's results come in the chunk's order.
module _ (fetch : ℕ → Settled) where
  unfoldable pub run_chunks : List (List ℕ) → List (Response Commit)
  run_chunks [] = []
  run_chunks (c ∷ cs) = map (λ h. response_of (fetch h)) c ++ run_chunks cs

  -- The loop ends after at most one round for each height, which is the fuel.
  unfoldable pub get_range_commits : ℕ → ℕ → ℕ → List (Response Commit)
  unfolding chunks run_chunks
  get_range_commits size from to =
      let heights = count_up from (to - from) in run_chunks (chunks (length heights) size heights)

abbrev joined : List (List ℕ) → List ℕ
joined [] = []
joined (c ∷ cs) = c ++ joined cs

joined-chunks :
    (fuel size : ℕ) (hs : List ℕ) → 0 < size → length hs ≤ fuel → joined (chunks fuel size hs) ≡ hs
unfolding chunks
joined-chunks zero size [] s h = refl
joined-chunks zero size (x ∷ hs) s h = absurd (omega arith)
joined-chunks (suc fuel) size [] s h = refl
joined-chunks (suc fuel) size (x ∷ hs) s h =
    rw (joined-chunks fuel size (drop size (x ∷ hs)) s (omega (arith, length-drop size (x ∷ hs))))
      (take-append-drop size (x ∷ hs))

chunks-small : (fuel size : ℕ) (hs : List ℕ) → All (λ c. length c ≤ size) (chunks fuel size hs)
unfolding chunks
chunks-small zero size hs = tt
chunks-small (suc fuel) size [] = tt
chunks-small (suc fuel) size (x ∷ hs) =
    (omega (arith, length-take size (x ∷ hs)), chunks-small fuel size (drop size (x ∷ hs)))

Answers-cons :
    (n : ℕ) (r : Response Commit) (rs : List (Response Commit))
    → ((c : Commit) → r ≡ Response.ok c → c.height ≡ n)
    → Answers (suc n) rs
    → Answers n (r ∷ rs)
Answers-cons n (Response.ok c) rs right h = (right c refl, h)
Answers-cons n (Response.fail e) rs right h = h

module _ (fetch : ℕ → Settled) where
  run_chunks-joined :
      (cs : List (List ℕ)) → run_chunks fetch cs ≡ map (λ h. response_of (fetch h)) (joined cs)
  unfolding run_chunks
  run_chunks-joined [] = refl
  run_chunks-joined (c ∷ cs) =
      rw (run_chunks-joined cs) (sym (map-append (λ h. response_of (fetch h)) c (joined cs)))

  -- The answers for a range are those for from, from + 1, up to to - 1, one for each height and in
  -- this order, whatever the chunk size, if it is not 0; and no chunk asks for more heights than
  -- the size.
  pub get_range_commits-eq-map :
      (size from to : ℕ)
      → 0 < size
      → (get_range_commits fetch size from to
          ≡ map (λ h. response_of (fetch h)) (count_up from (to - from)))
        × All
            (λ c. length c ≤ size)
            (chunks (length (count_up from (to - from))) size (count_up from (to - from)))
  unfolding get_range_commits
  get_range_commits-eq-map size from to s =
      let hs = count_up from (to - from) in
      (
        run_chunks-joined (chunks (length hs) size hs)
            ∙ ap (map (λ h. response_of (fetch h)))
                (joined-chunks (length hs) size hs s (omega arith)),
        chunks-small (length hs) size hs,
      )

  Answers-map :
      (n k : ℕ)
      → ((h : ℕ) (c : Commit) → response_of (fetch h) ≡ Response.ok c → c.height ≡ h)
      → Answers n (map (λ h. response_of (fetch h)) (count_up n k))
  Answers-map n zero right = tt
  Answers-map n (suc k) right =
      Answers-cons n (response_of (fetch n)) (map (λ h. response_of (fetch h)) (count_up (suc n) k))
        (right n) (Answers-map (suc n) k right)

  -- Where the node answers a request for one height with the commit of that height, or fails, the
  -- operator's answers for a range, with a chunk size above 0, are in step with its heights: the
  -- condition under which a poll leaves no gap.
  pub get_range_commits-Answers :
      (size from to : ℕ)
      → 0 < size
      → ((h : ℕ) (c : Commit) → response_of (fetch h) ≡ Response.ok c → c.height ≡ h)
      → Answers from (get_range_commits fetch size from to)
  get_range_commits-Answers size from to s right =
      rw (get_range_commits-eq-map size from to s).0 (Answers-map from (to - from) right)
