-- ===== src/Rag/Chunker/Markdown.antt =====
-- chunkMarkdown, chunkPlain and chunk of internal/rag/chunker.go.
use personal_memory.Prelude.{
  ◌<◌, All, All-append, Bool, Bool-cases, List, [], arith, false, inl, inr, leb, leb→le, length,
  map, true, ℕ, ◌∷◌, ◌≤◌, ◌++◌, ap, if◌then◌else◌, length-append, ltb, refl, ◌∙◌, ◌≡◌,
}
use personal_memory.Rag.Chunker.{
  Chunk, chunk, chunk_section, chunk_sections, flush_section, paragraphs_from, sections_from,
  split_by_headings, split_sentences, with_heading, emitted, is_full, is_markdown_heading,
  next_buffer, heading_after,
}
use personal_memory.Rag.Chunker.Sentences.{
  IsPiece, one_if-IsPiece, split_sentences-IsPiece, concat-split_sentences,
}
use personal_memory.Go.Text.{Text, is_empty, text, trim_space}
use personal_memory.Go.Strings.{concat}

-- What is embedded of a chunk is not empty and within the bound.
abbrev pub IsChunk : ℕ → Chunk → Type 0
IsChunk max c = IsPiece max c.body

with_heading-IsChunk :
    (max : ℕ) (heading : Text) (ts : List Text)
    → All (IsPiece max) ts
    → All (IsChunk max) (with_heading heading ts)
with_heading-IsChunk max heading [] h = tt
with_heading-IsChunk max heading (t ∷ ts) h = (h.0, with_heading-IsChunk max heading ts h.1)

full_filled : (max : ℕ) (buf para : Text) → is_full max buf para ≡ true → 0 < length buf
full_filled max [] para h = cc
full_filled max (c ∷ buf) para h = omega arith

emitted-IsPiece :
    (max : ℕ) (buf para : Text)
    → 0 < max
    → length buf ≤ max
    → All (IsPiece max) (emitted max buf para)
unfolding emitted
emitted-IsPiece max buf [] h k = tt
emitted-IsPiece max buf (c ∷ para) h k = All-append (IsPiece max) _ _ flushed cuts
  where
    flushed : All (IsPiece max) (if is_full max buf (c ∷ para) then buf ∷ [] else [])
    flushed = elim (Bool-cases (is_full max buf (c ∷ para))) [
      | inl e ↦ rw e ((full_filled max buf (c ∷ para) e, k), tt)
      | inr e ↦ rw e tt
    ]

    cuts :
        All
          (IsPiece max)
          (if ltb max (length (c ∷ para)) then split_sentences max (c ∷ para) else [])
    cuts = elim (Bool-cases (ltb max (length (c ∷ para)))) [
      | inl e ↦ rw e (split_sentences-IsPiece max (c ∷ para) h)
      | inr e ↦ rw e tt
    ]

next_buffer_fits :
    (max : ℕ) (buf para : Text) → length buf ≤ max → length (next_buffer max buf para) ≤ max
unfolding next_buffer
next_buffer_fits max buf [] k = k
next_buffer_fits max [] (c ∷ para) k = ground arith
next_buffer_fits max (b ∷ buf) (c ∷ para) k = ground (
  arith,
  length-append ((b ∷ buf) ++ text "\n\n") (c ∷ para),
  length-append (b ∷ buf) (text "\n\n"),
)

paragraphs_from-IsPiece :
    (max : ℕ) (buf : Text) (paras : List Text)
    → 0 < max
    → length buf ≤ max
    → All (IsPiece max) (paragraphs_from max buf paras)
unfolding paragraphs_from
paragraphs_from-IsPiece max buf [] h k = one_if-IsPiece max buf k
paragraphs_from-IsPiece max buf (raw ∷ paras) h k =
    All-append (IsPiece max) _ _ (emitted-IsPiece max buf (trim_space raw) h k) (
      paragraphs_from-IsPiece max (next_buffer max buf (trim_space raw)) paras h
        (next_buffer_fits max buf (trim_space raw) k))

abbrev IsFilled : Chunk → Type 0
IsFilled c = 0 < length c.body

flush_section-IsFilled : (buf heading : Text) → All IsFilled (flush_section buf heading)
unfolding flush_section
flush_section-IsFilled buf heading = filled (trim_space buf)
  where
    filled :
        (t : Text)
        → All IsFilled (if is_empty t then [] else record { body = t; heading = heading } ∷ [])
    filled [] = tt
    filled (c ∷ t) = (omega arith, tt)

sections_from-IsFilled :
    (buf heading : Text) (lines : List Text) → All IsFilled (sections_from buf heading lines)
unfolding sections_from
sections_from-IsFilled buf heading [] = flush_section-IsFilled buf heading
sections_from-IsFilled buf heading (line ∷ lines) =
    All-append IsFilled _ _ (flushed (is_markdown_heading line)) (
      sections_from-IsFilled ((if is_markdown_heading line then [] else buf) ++ (line ++ text "\n"))
        (if is_markdown_heading line then heading_after line heading else heading) lines)
  where
    flushed : (b : Bool) → All IsFilled (if b then flush_section buf heading else [])
    flushed true = flush_section-IsFilled buf heading
    flushed false = tt

chunk_section-IsChunk :
    (max : ℕ) (sec : Chunk)
    → 0 < max
    → 0 < length sec.body
    → All (IsChunk max) (chunk_section max sec)
unfolding chunk_section
chunk_section-IsChunk max sec h k = elim (Bool-cases (leb (length sec.body) max)) [
  | inl e ↦ rw e ((k, leb→le _ _ e), tt)
  | inr e ↦
      rw e
        (with_heading-IsChunk max sec.heading _ (paragraphs_from-IsPiece max [] _ h (omega arith)))
]

chunk_sections-IsChunk :
    (max : ℕ) (secs : List Chunk)
    → 0 < max
    → All IsFilled secs
    → All (IsChunk max) (chunk_sections max secs)
unfolding chunk_sections
chunk_sections-IsChunk max [] h k = tt
chunk_sections-IsChunk max (sec ∷ secs) h k =
    All-append (IsChunk max) _ _ (chunk_section-IsChunk max sec h k.0)
      (chunk_sections-IsChunk max secs h k.1)

-- Every chunk of a file, Markdown or not, is filled and at most `max` bytes long.
pub chunk-IsChunk :
    (s : Text) (max : ℕ) (is_markdown : Bool)
    → 0 < max
    → All (IsChunk max) (chunk s max is_markdown)
unfolding chunk
chunk-IsChunk s max true h =
    chunk_sections-IsChunk max (split_by_headings s) h
      (unfold split_by_headings in sections_from-IsFilled [] [] _)
chunk-IsChunk s max false h =
    with_heading-IsChunk max [] (split_sentences max s) (split_sentences-IsPiece max s h)

abbrev pub bodies : List Chunk → List Text
bodies = map (λ c. c.body)

bodies-with_heading : (heading : Text) (ts : List Text) → bodies (with_heading heading ts) ≡ ts
bodies-with_heading heading [] = refl
bodies-with_heading heading (t ∷ ts) = ap (◌∷◌ t) (bodies-with_heading heading ts)

-- The chunks of a plain text, joined, are the text.
pub concat-chunk_plain : (s : Text) (max : ℕ) → 0 < max → concat (bodies (chunk s max false)) ≡ s
unfolding chunk
concat-chunk_plain s max h =
    ap concat (bodies-with_heading [] (split_sentences max s)) ∙ concat-split_sentences max s h
