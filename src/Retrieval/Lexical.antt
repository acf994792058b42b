-- ===== src/Retrieval/Lexical.antt =====
-- internal/retrieval/scorer.go: the lexical score of a candidate's fields. What tokenizer.go makes of a
-- text is an argument, a `Lexer`. TokenCoverage, which no order reads, is left out.
use personal_memory.Prelude.{
  ◌&&◌, ◌+◌, ◌++◌, ◌==◌, Bool, List, [], false, if◌then◌else◌, length, ltb, map, not, ◌||◌, ℕ, ◌∷◌,
}
use personal_memory.Go.Text.{Text}
use personal_memory.Lifecycle.Model.{contains}

pub record Lexer : Type 0 where
  pub normalize : Text → Text
  -- tokenSetNormalized and identifierLexemesNormalized; each text once
  pub tokens_of : Text → List Text
  pub identifiers_of : Text → List Text
  -- containsExactPhrase: the field, then the query
  pub contains_phrase : Text → Text → Bool

-- Field
pub record NamedField : Type 0 where
  pub name : Text
  pub value : Text

pub record FieldDiagnostics : Type 0 where
  pub name : Text
  pub exact_phrase : Bool
  pub matched_tokens : ℕ
  pub identifier_matches : ℕ

pub record LexicalDiagnostics : Type 0 where
  pub has_signal : Bool
  pub exact_phrase : Bool
  pub matched_tokens : ℕ
  pub total_tokens : ℕ
  pub identifier_matches : ℕ
  pub fields : List FieldDiagnostics

abbrev pub no_diagnostics : LexicalDiagnostics
no_diagnostics = record {
  has_signal = false;
  exact_phrase = false;
  matched_tokens = 0;
  total_tokens = 0;
  identifier_matches = 0;
  fields = [];
}

unfoldable pub count_in : List Text → List Text → ℕ
unfolding contains
count_in [] ts = 0
count_in (q ∷ qs) ts = (if contains q ts then 1 else 0) + count_in qs ts

module _ (lexer : Lexer) where
  open lexer use {normalize, tokens_of, identifiers_of, contains_phrase}

  -- The body of the loop over the fields in scoreLexical
  unfoldable pub score_field : Text → NamedField → FieldDiagnostics
  unfolding count_in
  score_field query f =
      let value = normalize f.value in
      record {
        name = f.name;
        exact_phrase =
            if (length (tokens_of query) == 0) && (length (identifiers_of query) == 0)
            then false
            else contains_phrase value query;
        matched_tokens = count_in (tokens_of query) (tokens_of value);
        identifier_matches = count_in (identifiers_of query) (identifiers_of value);
      }

  -- The tokens, or the identifiers, of all fields
  unfoldable pub in_fields : (Text → List Text) → List NamedField → List Text
  in_fields parts [] = []
  in_fields parts (f ∷ fs) = parts (normalize f.value) ++ in_fields parts fs

  unfoldable pub any_phrase : List FieldDiagnostics → Bool
  any_phrase [] = false
  any_phrase (d ∷ ds) = d.exact_phrase || any_phrase ds

  -- scoreLexical
  unfoldable pub score_lexical : Text → List NamedField → LexicalDiagnostics
  unfolding count_in score_field in_fields any_phrase
  score_lexical query fs =
      let own = map (score_field query) fs in
      let matched = count_in (tokens_of query) (in_fields tokens_of fs) in
      let identifiers = count_in (identifiers_of query) (in_fields identifiers_of fs) in
      record {
        has_signal = any_phrase own || (ltb 0 matched || ltb 0 identifiers);
        exact_phrase = any_phrase own;
        matched_tokens = matched;
        total_tokens = length (tokens_of query);
        identifier_matches = identifiers;
        fields = own;
      }

abbrev pub counts_first : LexicalDiagnostics → LexicalDiagnostics → Bool
counts_first a b =
    ltb b.identifier_matches a.identifier_matches
    || ((a.identifier_matches == b.identifier_matches) && ltb b.matched_tokens a.matched_tokens)

-- compareLexical: whether the left one comes first
unfoldable pub lexical_first : LexicalDiagnostics → LexicalDiagnostics → Bool
lexical_first a b =
    if a.exact_phrase
    then not b.exact_phrase || counts_first a b
    else not b.exact_phrase && counts_first a b

abbrev pub lexical_differ : LexicalDiagnostics → LexicalDiagnostics → Bool
lexical_differ a b = lexical_first a b || lexical_first b a
