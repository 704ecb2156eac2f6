-- ===== src/Knowledge/Chunks.antt =====
-- `chunk` of `RagSecurityPolicy` (packages/domain/src/knowledge/rag-policy.ts), on the text that
-- `sanitizeContext` and `trim` have made, with the sizes that it has by default. The loop is run on
-- fuel; Laws shows that as much as the text is long is enough.
pub mod Laws
use sentriqora.Base.{
  ℕ, zero, suc, ◌+◌, ◌-◌, ◌/◌, Bool, true, false, Option, none, some, List, [], ◌∷◌, Text, trim,
  length, take, drop, min, max, leb, ltb, ◌==◌, ◌&&◌, not, if◌then◌else◌,
}

pub record Chunk : Type 0 where
  pub content : Text
  pub ordinal : ℕ
  pub token_estimate : ℕ

abbrev pub target_characters : ℕ
target_characters = 1_200

abbrev pub overlap_characters : ℕ
overlap_characters = 180

-- `Math.floor(targetCharacters * 0.6)`
abbrev pub least_characters : ℕ
least_characters = 720

-- `lastIndexOf('\n', limit)` on the rest of a text from an index on
unfoldable pub last_newline : ℕ → ℕ → Text → Option ℕ
last_newline index limit [] = none
last_newline index limit (c ∷ t) = elim (last_newline (suc index) limit t) [
  | some found ↦ some found
  | none ↦ if c == 10 && leb index limit then some index else none
]

-- `slice(start, end)`
abbrev pub slice : ℕ → ℕ → Text → Text
slice start end t = take (end - start) (drop start t)

abbrev pub at_boundary : ℕ → ℕ → Option ℕ → ℕ
at_boundary start end none = end
at_boundary start end (some boundary) =
    if ltb (start + least_characters) boundary then boundary else end

unfoldable pub chunk_end : Text → ℕ → ℕ
chunk_end t start =
    let end = min (start + target_characters) (length t) in
    if ltb end (length t) then at_boundary start end (last_newline 0 end t) else end

abbrev pub next_start : ℕ → ℕ → ℕ
next_start start end = max (start + 1) (end - overlap_characters)

-- `if (value.length > 0) chunks.push(…)`, before the chunks of the rest of the loop
unfoldable pub push : ℕ → Text → (ℕ → List Chunk) → List Chunk
push n [] rest = rest n
push n (c ∷ value) rest =
    record { content = c ∷ value; ordinal = n; token_estimate = (length (c ∷ value) + 3) / 4 }
    ∷ rest (n + 1)

-- What follows unless the loop has ended.
unfoldable pub unless : Bool → List Chunk → List Chunk
unless true chunks = []
unless false chunks = chunks

-- The loop from a start on, with `n` chunks made.
unfoldable pub chunks_from : ℕ → Text → ℕ → ℕ → List Chunk
chunks_from zero t start n = []
chunks_from (suc fuel) t start n = unless (not (ltb start (length t) && ltb n 200)) (
    push n (trim (slice start (chunk_end t start) t)) (λ m.
      unless (leb (length t) (chunk_end t start))
        (chunks_from fuel t (next_start start (chunk_end t start)) m)))

-- `chunk`
unfoldable pub chunk : Text → List Chunk
chunk t = chunks_from (length t) t 0 0
