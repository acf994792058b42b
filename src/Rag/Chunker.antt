-- ===== src/Rag/Chunker.antt =====
-- internal/rag/chunker.go: chunk and what it calls, and isMarkdownHeading of summarizer.go.
-- A string builder is the text written so far. The source's loop that hard-splits a sentence does
-- not end for maxBytes = 0; the model's is bounded by the sentence's length, which every
-- positive maxBytes leaves enough of.
pub mod Sentences
pub mod Markdown
use personal_memory.Go.Text.{Text, text, is_empty, trim_space}
use personal_memory.Go.Strings.{split, split2, split_after2, has_prefix, after_first, rune_start}
use personal_memory.Prelude.{
  ◌&&◌, ◌+◌, ◌++◌, Bool, List, Option, [], drop, if◌then◌else◌, leb, length, ltb, map, none, not,
  some, suc, take, true, zero, ◌||◌, ℕ, ◌∷◌,
}

-- chunkResult, and the type section, which has the same fields
pub record Chunk : Type 0 where
  pub body : Text
  pub heading : Text

abbrev pub one_if : Text → List Text
one_if [] = []
one_if (c ∷ t) = (c ∷ t) ∷ []

-- s[n], where there is one
abbrev byte_at : Text → ℕ → Option ℕ
byte_at [] n = none
byte_at (c ∷ s) zero = some c
byte_at (c ∷ s) (suc n) = byte_at s n

abbrev starts_rune : Option ℕ → Bool
starts_rune none = true
starts_rune (some c) = rune_start c

-- `for n > 1 && !utf8.RuneStart(sentence[n]) { n-- }`
unfoldable pub back_up : Text → ℕ → ℕ
back_up s zero = 0
back_up s (suc zero) = 1
back_up s (suc (suc n)) =
    let less = back_up s (suc n) in
    if starts_rune (byte_at s (suc (suc n))) then suc (suc n) else less

-- Where a sentence that is too long is cut.
unfoldable pub cut : ℕ → Text → ℕ
unfolding back_up
cut max s = if leb (length s) max then length s else back_up s max

-- The loop that hard-splits, with a bound on its rounds.
unfoldable pub hard_split : ℕ → ℕ → Text → List Text
unfolding cut
hard_split rounds max [] = []
hard_split zero max (c ∷ s) = []
hard_split (suc rounds) max (c ∷ s) =
    let n = cut max (c ∷ s) in take n (c ∷ s) ∷ hard_split rounds max (drop n (c ∷ s))

-- The loop of splitSentences: `buf` and the sentences left give the results still to come.
unfoldable pub sentences_from : ℕ → Text → List Text → List Text
unfolding hard_split
sentences_from max buf [] = one_if buf
sentences_from max buf (s ∷ ss) =
    let flushes = ltb max (length buf + length s) && not (is_empty buf) in
    let kept = if flushes then [] else buf in
    let too_long = ltb max (length s) in
    let rest = sentences_from max (if too_long then kept else kept ++ s) ss in
    (if flushes then buf ∷ [] else [])
    ++ ((if too_long then hard_split (length s) max s else []) ++ rest)

-- splitSentences
unfoldable pub split_sentences : ℕ → Text → List Text
unfolding sentences_from
split_sentences max s = sentences_from max [] (split_after2 b'.' b' ' s)

-- isMarkdownHeading
unfoldable pub is_markdown_heading : Text → Bool
is_markdown_heading line =
    has_prefix line (text "# ") || has_prefix line (text "## ") || has_prefix line (text "### ")

-- flush of splitByHeadings
unfoldable pub flush_section : Text → Text → List Chunk
flush_section buf heading =
    if is_empty (trim_space buf)
    then []
    else record { body = trim_space buf; heading = heading } ∷ []

abbrev pub heading_after : Text → Text → Text
heading_after line old = elim (after_first b' ' line) [ none ↦ old | some t ↦ trim_space t ]

-- The loop of splitByHeadings over the lines that are left.
unfoldable pub sections_from : Text → Text → List Text → List Chunk
unfolding flush_section is_markdown_heading
sections_from buf heading [] = flush_section buf heading
sections_from buf heading (line ∷ lines) =
    let is_heading = is_markdown_heading line in
    let rest =
      sections_from ((if is_heading then [] else buf) ++ (line ++ text "\n"))
        (if is_heading then heading_after line heading else heading) lines in
    (if is_heading then flush_section buf heading else []) ++ rest

-- splitByHeadings
unfoldable pub split_by_headings : Text → List Chunk
unfolding sections_from
split_by_headings s = sections_from [] [] (split b'\n' s)

-- `buf.Len() > 0 && buf.Len()+len(para)+2 > maxBytes`
abbrev pub is_full : ℕ → Text → Text → Bool
is_full max buf para = not (is_empty buf) && ltb max (length buf + length para + 2)

abbrev pub kept_buffer : ℕ → Text → Text → Text
kept_buffer max buf para = if is_full max buf para then [] else buf

abbrev pub separated : Text → Text
separated [] = []
separated (c ∷ buf) = (c ∷ buf) ++ text "\n\n"

-- What one trimmed paragraph adds to the results; an empty one is passed over.
unfoldable pub emitted : ℕ → Text → Text → List Text
emitted max buf [] = []
emitted max buf (c ∷ para) =
    (if is_full max buf (c ∷ para) then buf ∷ [] else [])
    ++ (if ltb max (length (c ∷ para)) then split_sentences max (c ∷ para) else [])

-- What it leaves in the builder.
unfoldable pub next_buffer : ℕ → Text → Text → Text
next_buffer max buf [] = buf
next_buffer max buf (c ∷ para) =
    if ltb max (length (c ∷ para))
    then kept_buffer max buf (c ∷ para)
    else separated (kept_buffer max buf (c ∷ para)) ++ c ∷ para

-- The loop over the paragraphs of one large section.
unfoldable pub paragraphs_from : ℕ → Text → List Text → List Text
unfolding emitted next_buffer
paragraphs_from max buf [] = one_if buf
paragraphs_from max buf (raw ∷ paras) =
    emitted max buf (trim_space raw)
    ++ paragraphs_from max (next_buffer max buf (trim_space raw)) paras

abbrev pub with_heading : Text → List Text → List Chunk
with_heading heading = map (λ t. record { body = t; heading = heading })

-- One round of the loop over sections.
unfoldable pub chunk_section : ℕ → Chunk → List Chunk
unfolding paragraphs_from
chunk_section max sec =
    if leb (length sec.body) max
    then sec ∷ []
    else with_heading sec.heading (paragraphs_from max [] (split2 b'\n' b'\n' sec.body))

unfoldable pub chunk_sections : ℕ → List Chunk → List Chunk
unfolding chunk_section
chunk_sections max [] = []
chunk_sections max (sec ∷ secs) = chunk_section max sec ++ chunk_sections max secs

-- chunkMarkdown
unfoldable pub chunk_markdown : Text → ℕ → List Chunk
unfolding chunk_sections split_by_headings
chunk_markdown s max = chunk_sections max (split_by_headings s)

-- chunkPlain
unfoldable pub chunk_plain : Text → ℕ → List Chunk
unfolding split_sentences
chunk_plain s max = with_heading [] (split_sentences max s)

-- chunk
unfoldable pub chunk : Text → ℕ → Bool → List Chunk
unfolding chunk_markdown chunk_plain
chunk s max is_markdown = if is_markdown then chunk_markdown s max else chunk_plain s max
