-- ===== src/Retrieval/MultiList.antt =====
-- internal/retrieval/multilist.go: FuseRankedLists, with validateRRFConstant, compareID and rrfTerm
-- of fusion.go.
--
-- Scores are an argument: the sums of rrfTerm as float64 numbers, of which the comparison is used
-- and the order of the additions is kept. An int that is not positive is refused, so that the
-- negative ones are not represented. The map byID is the list of its entries; both sorts compare
-- distinct names or ids, so that their result does not depend on the order before.
pub mod Laws
pub mod Ids
pub mod Results
use personal_memory.Prelude.{
  ◌&&◌, ◌+◌, ◌==◌, Bool, List, Option, [], false, if◌then◌else◌, length, leb, ltb, none, not, some,
  take, drop, true, ◌||◌, ℕ, ◌∷◌, ◌≡◌, ◌++◌, map,
}
use personal_memory.Go.Text.{Text, is_empty, text_eq, text_lt, trim_space}
use personal_memory.Lifecycle.Model.{contains, is_some}
use personal_memory.Go.Sort.{sort}
use personal_memory.Maintenance.Request.{unique_texts}

-- What is relied on: above is a strict weak order, as > is on numbers that are not NaN.
pub record Scores : Type 1 where
  pub Score : Type 0
  pub zero_score : Score
  pub add_score : Score → Score → Score
  -- rrfTerm: the rank, then the constant
  pub rrf_term : ℕ → ℕ → Score
  pub above : Score → Score → Bool
  pub above_asymm : (a b : Score) → above a b ≡ true → above b a ≡ false
  pub above_negtrans : (a b c : Score) → above b a ≡ false → above c b ≡ false → above c a ≡ false

pub record RankedList : Type 0 where
  pub name : Text
  pub ids : List Text

pub record MultiListOptions : Type 0 where
  pub rrf_constant : ℕ
  pub limit : ℕ
  pub flat_source : Text

pub record SourceRank : Type 0 where
  pub source : Text
  pub rank : ℕ

-- Not blank, and without blanks around it, as `x == "" || x != strings.TrimSpace(x)` refuses.
abbrev pub is_plain : Text → Bool
is_plain t = not (is_empty t) && text_eq t (trim_space t)

-- The loop over the ids of one list; `seen` holds the ids before this one.
unfoldable pub ids_valid : List Text → List Text → Bool
unfolding contains
ids_valid seen [] = true
ids_valid seen (id ∷ ids) =
    let rest = ids_valid (id ∷ seen) ids in
    if not (is_plain id) || contains id seen then false else rest

-- The loop over the lists; `names` holds the names before this one.
unfoldable pub lists_valid : List Text → List RankedList → Bool
unfolding contains ids_valid
lists_valid names [] = true
lists_valid names (l ∷ ls) =
    let rest = lists_valid (l.name ∷ names) ls in
    if not (is_plain l.name)
      || ((length l.ids == 0) || (ltb 400 (length l.ids) || contains l.name names))
    then false
    else if not (ids_valid [] l.ids)
    then false
    else rest

unfoldable pub all_ids : List RankedList → List Text
all_ids [] = []
all_ids (l ∷ ls) = l.ids ++ all_ids ls

abbrev pub names_of : List RankedList → List Text
names_of ls = map (λ l. l.name) ls

-- validateRankedLists; whether its error is nil.
unfoldable pub validate_ranked_lists : List RankedList → MultiListOptions → Bool
unfolding lists_valid all_ids unique_texts contains
validate_ranked_lists ls o =
    (not (length ls == 0) && leb (length ls) 8)
    && ((ltb 0 o.rrf_constant && leb o.rrf_constant 1000000)
        && ((ltb 0 o.limit && leb o.limit 100)
            && (lists_valid [] ls
                && (leb (length (unique_texts (all_ids ls))) 400
                    && (is_empty o.flat_source
                        || (text_eq o.flat_source (trim_space o.flat_source)
                            && contains o.flat_source (names_of ls)))))))

abbrev pub name_before : RankedList → RankedList → Bool
name_before l r = text_lt l.name r.name

abbrev pub first_id : List Text → Text
first_id [] = []
first_id (id ∷ ids) = id

-- flatTopID
unfoldable pub flat_top_id : List RankedList → Text → Text
flat_top_id [] source = []
flat_top_id (l ∷ ls) source =
    if text_eq l.name source then first_id l.ids else flat_top_id ls source

abbrev pub ordered_lists : List RankedList → List RankedList
ordered_lists ls = sort name_before ls

module _ (scores : Scores) where
  open scores use {Score, zero_score, add_score, rrf_term, above}

  -- accumulatedCandidate, and FusedResult, which has the same fields and the flag.
  pub record FusedResult : Type 0 where
    pub id : Text
    pub rrf_score : Score
    pub sources : List SourceRank
    pub flat_rescued : Bool

  abbrev pub count_source : Text → ℕ → Score → FusedResult → FusedResult
  count_source name rank term c = record c {
    rrf_score = add_score c.rrf_score term;
    sources = c.sources ++ (record { source = name; rank = rank } ∷ []);
  }

  abbrev pub new_candidate : Text → FusedResult
  new_candidate id = record { id = id; rrf_score = zero_score; sources = []; flat_rescued = false }

  -- The body of the inner loop
  unfoldable pub add_candidate : Text → ℕ → Score → Text → List FusedResult → List FusedResult
  add_candidate name rank term id [] = count_source name rank term (new_candidate id) ∷ []
  add_candidate name rank term id (c ∷ cs) =
      let rest = add_candidate name rank term id cs in
      if text_eq c.id id then count_source name rank term c ∷ cs else c ∷ rest

  -- The inner loop, from the rank of the first id
  unfoldable pub add_ids : Text → ℕ → ℕ → List Text → List FusedResult → List FusedResult
  unfolding add_candidate
  add_ids name constant rank [] cs = cs
  add_ids name constant rank (id ∷ ids) cs =
      add_ids name constant (rank + 1) ids (add_candidate name rank (rrf_term rank constant) id cs)

  unfoldable pub add_lists : ℕ → List RankedList → List FusedResult → List FusedResult
  unfolding add_ids
  add_lists constant [] cs = cs
  add_lists constant (l ∷ ls) cs = add_lists constant ls (add_ids l.name constant 1 l.ids cs)

  abbrev pub fused_before : FusedResult → FusedResult → Bool
  fused_before a b =
      if above a.rrf_score b.rrf_score
      then true
      else if above b.rrf_score a.rrf_score
      then false
      else text_lt a.id b.id

  -- The first candidate with this id
  unfoldable pub find_result : Text → List FusedResult → Option FusedResult
  find_result id [] = none
  find_result id (c ∷ cs) = if text_eq c.id id then some c else find_result id cs

  -- results[len(results)-1] = c
  unfoldable pub replace_last : FusedResult → List FusedResult → List FusedResult
  replace_last c [] = []
  replace_last c (x ∷ []) = c ∷ []
  replace_last c (x ∷ y ∷ xs) = x ∷ replace_last c (y ∷ xs)

  abbrev pub rescue : List FusedResult → Option FusedResult → List FusedResult × Bool
  rescue results none = (results, false)
  rescue results (some c) = (replace_last (record c { flat_rescued = true }) results, true)

  -- What follows the sort of the candidates; the Bool is FlatRescueApplied.
  unfoldable pub top_results :
      List RankedList → MultiListOptions → List FusedResult → List FusedResult × Bool
  unfolding flat_top_id find_result replace_last
  top_results ordered o all =
      let results = take o.limit all in
      let flat = flat_top_id ordered o.flat_source in
      if is_empty o.flat_source || leb (length all) o.limit
      then (results, false)
      else if is_some (find_result flat results)
      then (results, false)
      else rescue results (find_result flat (drop o.limit all))

  abbrev pub fused_candidates : ℕ → List RankedList → List FusedResult
  fused_candidates constant ls = sort fused_before (add_lists constant (ordered_lists ls) [])

  -- FuseRankedLists; none is the error.
  unfoldable pub fuse_ranked_lists :
      List RankedList → MultiListOptions → Option (List FusedResult × Bool)
  unfolding validate_ranked_lists top_results add_lists sort
  fuse_ranked_lists ls o =
      if not (validate_ranked_lists ls o)
      then none
      else some (top_results (ordered_lists ls) o (fused_candidates o.rrf_constant ls))
