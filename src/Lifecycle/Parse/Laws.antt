-- ===== src/Lifecycle/Parse/Laws.antt =====
-- What Parse of internal/memory/lifecycle/model.go promises of the views that it returns.
use personal_memory.Prelude.{
  ◌&&◌, All, Bool, Bool-cases, List, Option, [], false, inl, inr, none, refl, some, subst, true,
  ◌∷◌, ◌≡◌, ◌≢◌, not, ap, arith, if◌then◌else◌, some_inj, ◌↔◌,
}
use personal_memory.Lifecycle.Parse.{
  Payload, parse_ids, parse_relationships, Parsed, ◌>=>◌, parse_state, parse_canonical,
  parse_verified_at, parse_transitioned_at, parse_provenance_field, parse_supersedes,
  parse_superseded_by, validate_view, parse, is_legacy, parse_provenance, accepted, rejected,
  accept_or, normalize_point_id, initial, lifecycle_view, view_of, source_of, reference_of,
}
use personal_memory.Lifecycle.Model.{
  View, Relation, Reason, Provenance, ok, validate, is_some, is_valid_state, state_of, Result,
  require, relation_self, err, contains,
}
use personal_memory.Go.Text.{Text, trim_space, text_eq, is_empty}
use personal_memory.Go.Json.{nil, Items, Value, items_of, cons, arr, str, bool, strs, obj, get}
use personal_memory.Lifecycle.Model.Laws.{
  IsWellFormed, ok_inj, validate_iff, >>-eq-ok, >>=-eq-ok, ne-is_empty, require-eq-ok,
}
use personal_memory.Go.Time.{parse_rfc3339}
use personal_memory.Go.Text.Laws.{text_eq_iff, trim_space_idem}

-- A view as the stages leave it: what the payload said last of each part, and nothing more.
pub record IsClean (p : Payload) (point_id : Text) (legacy : Bool) (reason : Option Reason)
    (provenance : Option Provenance) (transitioned_at : Text) (supersedes superseded_by : List Text)
    : Type 0 where
  pub explicit : legacy ≡ is_legacy p
  pub no_reason : reason ≡ none
  pub source_trimmed : (q : Provenance) → provenance ≡ some q → trim_space q.source ≡ q.source
  pub transitioned :
      transitioned_at ≢ []
      → (text_eq (trim_space transitioned_at) transitioned_at
          && is_some (parse_rfc3339 transitioned_at))
        ≡ true
  pub supersedes_others : trim_space point_id ≢ [] → All (λ id. id ≢ trim_space point_id) supersedes
  pub superseded_by_others :
      trim_space point_id ≢ [] → All (λ id. id ≢ trim_space point_id) superseded_by

-- The same of a view.
abbrev pub IsCleanView : Payload → Text → View → Type 0
IsCleanView p point_id v =
    IsClean p point_id v.legacy v.invalid_reason v.provenance v.transitioned_at v.supersedes
      v.superseded_by

-- `P` of an accepted view; a rejected one is marked invalid.
abbrev Outcome : (View → Type 0) → Parsed → Type 0
Outcome P (accepted v) = P v
Outcome P (rejected v) = v.valid ≡ false

chain :
    (P Q : View → Type 0) (m : Parsed) (f : View → Parsed)
    → Outcome P m
    → ((u : View) → P u → Outcome Q (f u))
    → Outcome Q (m >=> f)
chain P Q (accepted u) f h k = k u h
chain P Q (rejected u) f h k = h

-- The rule for a stage that goes on with a result or makes the view invalid.
accept_or-Outcome {ℓ} :
    {A : Type ℓ} (P : View → Type 0) (r : Result A) (f : A → View) (v : View)
    → ((a : A) → r ≡ ok a → P (f a))
    → Outcome P (accept_or r f v)
unfolding accept_or
accept_or-Outcome P (ok a) f v h = h a refl
accept_or-Outcome P (err r) f v h = refl

source_of_trimmed : (o : Option Value) {s : Text} → source_of o ≡ ok s → trim_space s ≡ s
source_of_trimmed (some (str t)) {s} h = elim (Bool-cases (is_empty (trim_space t))) [
  | inl e ↦ ground arith
  | inr e ↦
      let same : trim_space t ≡ s = ground arith in
      subst (λ u. trim_space u ≡ u) same (trim_space_idem t)
]
source_of_trimmed _ h = cc

parse_provenance_trimmed :
    (x : Value) {q : Provenance} → parse_provenance x ≡ ok q → trim_space q.source ≡ q.source
unfolding parse_provenance
parse_provenance_trimmed (obj m) {q} h =
    let (s, e, h') = >>=-eq-ok (source_of (get "source" m)) _ h in
    let (r, _, h'') = >>=-eq-ok (reference_of (get "reference" m)) _ h' in
    subst (λ (p : Provenance). trim_space p.source ≡ p.source) (ok_inj h'')
      (source_of_trimmed (get "source" m) e)
parse_provenance_trimmed _ h = cc

-- One round of the loop that goes on.
pub parse_ids_step :
    (f : Relation) (self : Text) (seen : List Text) (x : Value) (xs : Items) (ids : List Text)
    → parse_ids f self seen (cons x xs) ≡ ok ids
    → (id : Text) × (rest : List Text) × (normalize_point_id f x ≡ ok id)
      × ((not (not (is_empty self) && text_eq id self)) ≡ true)
      × (parse_ids f self (id ∷ seen) xs ≡ ok rest)
      × ((if contains id seen then rest else id ∷ rest) ≡ ids)
unfolding parse_ids
parse_ids_step f self seen x xs ids h =
    let (id, n, h') = >>=-eq-ok (normalize_point_id f x) _ h in
    let (a, h'') =
      >>-eq-ok (require (not (not (is_empty self) && text_eq id self)) (relation_self f)) _ h' in
    let (rest, e, h3) = >>=-eq-ok (parse_ids f self (id ∷ seen) xs) _ h'' in
    (id, rest, n, require-eq-ok _ _ a, e, ok_inj h3)

parse_ids-All :
    (f : Relation) (self : Text) (seen : List Text) (xs : Items)
    → self ≢ []
    → {ids : List Text} → parse_ids f self seen xs ≡ ok ids
    → All (λ id. id ≢ self) ids
unfolding parse_ids
parse_ids-All f self seen nil n h = subst (All (λ id. id ≢ self)) (ok_inj h) tt
parse_ids-All f self seen (cons x xs) n {ids} h =
    let (id, rest, _, other, e, same) = parse_ids_step f self seen x xs ids h in
    let ih = parse_ids-All f self (id ∷ seen) xs n {ids = rest} e in
    let ne : id ≢ self = ground (arith, text_eq_iff id self, ne-is_empty self n) in
    elim (Bool-cases (contains id seen)) [
      | inl c ↦ subst (All (λ id'. id' ≢ self)) (rw c at same) ih
      | inr c ↦ subst (All (λ id'. id' ≢ self)) (rw c at same) (ne, ih)
    ]

others :
    (f : Relation) (point_id : Text) (x : Value) {ids : List Text}
    → parse_relationships f point_id x ≡ ok ids
    → trim_space point_id ≢ []
    → All (λ id. id ≢ trim_space point_id) ids
unfolding parse_relationships
others f point_id (arr xs) h n = parse_ids-All f (trim_space point_id) [] xs n h
others f point_id (strs ts) h n = parse_ids-All f (trim_space point_id) [] (items_of ts) n h
others f point_id _ h n = cc

module _ (p : Payload) (point_id : Text) where
  abbrev Clean : View → Type 0
  Clean v = IsCleanView p point_id v

  parse_state-Clean : (o : Option Value) (u : View) → Clean u → Outcome Clean (parse_state o u)
  unfolding parse_state
  parse_state-Clean none u h = h
  parse_state-Clean (some (str t)) u h =
      elim (Bool-cases (text_eq (trim_space t) t && is_valid_state (state_of t))) [
        | inl e ↦ rw e h
        | inr e ↦ rw e refl
      ]
  parse_state-Clean (some _) u h = refl

  parse_canonical-Clean :
      (o : Option Value) (u : View) → Clean u → Outcome Clean (parse_canonical o u)
  unfolding parse_canonical
  parse_canonical-Clean none u h = h
  parse_canonical-Clean (some (bool b)) u h = h
  parse_canonical-Clean (some _) u h = refl

  parse_verified_at-Clean :
      (o : Option Value) (u : View) → Clean u → Outcome Clean (parse_verified_at o u)
  unfolding parse_verified_at
  parse_verified_at-Clean none u h = h
  parse_verified_at-Clean (some (str [])) u h = refl
  parse_verified_at-Clean (some (str (c ∷ t))) u h =
      elim (Bool-cases (is_some (parse_rfc3339 (c ∷ t)))) [ inl e ↦ rw e h | inr e ↦ rw e refl ]
  parse_verified_at-Clean (some _) u h = refl

  parse_transitioned_at-Clean :
      (o : Option Value) (u : View) → Clean u → Outcome Clean (parse_transitioned_at o u)
  unfolding parse_transitioned_at
  parse_transitioned_at-Clean none u h = h
  parse_transitioned_at-Clean (some (str t)) u h =
      elim (Bool-cases (text_eq (trim_space t) t && is_some (parse_rfc3339 t))) [
        | inl e ↦ rw e (record {
          explicit = h.explicit;
          no_reason = h.no_reason;
          source_trimmed = h.source_trimmed;
          transitioned = λ _. e;
          supersedes_others = h.supersedes_others;
          superseded_by_others = h.superseded_by_others;
        })
        | inr e ↦ rw e refl
      ]
  parse_transitioned_at-Clean (some _) u h = refl

  parse_provenance_field-Clean :
      (o : Option Value) (u : View) → Clean u → Outcome Clean (parse_provenance_field o u)
  unfolding parse_provenance_field
  parse_provenance_field-Clean none u h = h
  parse_provenance_field-Clean (some x) u h =
      accept_or-Outcome Clean (parse_provenance x) _ _ λ q e. record {
        explicit = h.explicit;
        no_reason = h.no_reason;
        source_trimmed = λ r s.
            subst (λ (t : Provenance). trim_space t.source ≡ t.source) (some_inj s)
              (parse_provenance_trimmed x e);
        transitioned = h.transitioned;
        supersedes_others = h.supersedes_others;
        superseded_by_others = h.superseded_by_others;
      }

  parse_supersedes-Clean :
      (o : Option Value) (u : View) → Clean u → Outcome Clean (parse_supersedes point_id o u)
  unfolding parse_supersedes
  parse_supersedes-Clean none u h = h
  parse_supersedes-Clean (some x) u h =
      accept_or-Outcome Clean (parse_relationships Relation.supersedes point_id x) _ _ λ ids e.
        record {
          explicit = h.explicit;
          no_reason = h.no_reason;
          source_trimmed = h.source_trimmed;
          transitioned = h.transitioned;
          supersedes_others = others Relation.supersedes point_id x e;
          superseded_by_others = h.superseded_by_others;
        }

  parse_superseded_by-Clean :
      (o : Option Value) (u : View) → Clean u → Outcome Clean (parse_superseded_by point_id o u)
  unfolding parse_superseded_by
  parse_superseded_by-Clean none u h = h
  parse_superseded_by-Clean (some x) u h =
      accept_or-Outcome Clean (parse_relationships Relation.superseded_by point_id x) _ _ λ ids e.
        record {
          explicit = h.explicit;
          no_reason = h.no_reason;
          source_trimmed = h.source_trimmed;
          transitioned = h.transitioned;
          supersedes_others = h.supersedes_others;
          superseded_by_others = others Relation.superseded_by point_id x e;
        }

  abbrev Good : View → Type 0
  Good v = IsWellFormed v × Clean v

  validate_view-Good : (u : View) → Clean u → Outcome Good (validate_view u)
  unfolding validate_view
  validate_view-Good u h = accept_or-Outcome Good (validate u) _ _ λ t e. ((validate_iff u).0 e, h)

  initial-Clean : Outcome Clean (accepted (initial (is_legacy p)))
  unfolding initial
  initial-Clean = record {
    explicit = refl;
    no_reason = refl;
    source_trimmed = λ q e. cc;
    transitioned = λ n. absurd (n refl);
    supersedes_others = λ _. tt;
    superseded_by_others = λ _. tt;
  }

  next :
      (m : Parsed) (f : View → Parsed)
      → Outcome Clean m
      → ((u : View) → Clean u → Outcome Clean (f u))
      → Outcome Clean (m >=> f)
  next m f = chain Clean Clean m f

  parse-Outcome : Outcome Good (parse p point_id)
  unfolding parse
  parse-Outcome =
      let m0 = accepted (initial (is_legacy p)) in
      let m1 = m0 >=> parse_state (get "lifecycle_state" p) in
      let m2 = m1 >=> parse_canonical (get "canonical" p) in
      let m3 = m2 >=> parse_provenance_field (get "provenance" p) in
      let m4 = m3 >=> parse_verified_at (get "verified_at" p) in
      let m5 = m4 >=> parse_transitioned_at (get "lifecycle_transitioned_at" p) in
      let m6 = m5 >=> parse_supersedes point_id (get "supersedes" p) in
      let m7 = m6 >=> parse_superseded_by point_id (get "superseded_by" p) in
      let c1 = next m0 _ initial-Clean (parse_state-Clean (get "lifecycle_state" p)) in
      let c2 = next m1 _ c1 (parse_canonical-Clean (get "canonical" p)) in
      let c3 = next m2 _ c2 (parse_provenance_field-Clean (get "provenance" p)) in
      let c4 = next m3 _ c3 (parse_verified_at-Clean (get "verified_at" p)) in
      let c5 = next m4 _ c4 (parse_transitioned_at-Clean (get "lifecycle_transitioned_at" p)) in
      let c6 = next m5 _ c5 (parse_supersedes-Clean (get "supersedes" p)) in
      let c7 = next m6 _ c6 (parse_superseded_by-Clean (get "superseded_by" p)) in
      chain Clean Good m7 validate_view c7 validate_view-Good

abbrev pub IsParsed : Payload → Text → View → Type 0
IsParsed p point_id v = IsWellFormed v × IsCleanView p point_id v

accepted_outcome : (P : View → Type 0) (m : Parsed) (v : View) → Outcome P m → m ≡ accepted v → P v
accepted_outcome P (accepted u) v h e = subst P (ap view_of e) h
accepted_outcome P (rejected u) v h e = cc

valid-Outcome :
    (P : View → Type 0) (m : Parsed)
    → Outcome P m
    → (view_of m).valid ≡ true
    → (m ≡ accepted (view_of m)) × P (view_of m)
valid-Outcome P (accepted u) h e = (refl, h)
valid-Outcome P (rejected u) h e = cc

-- An accepted payload gives a well-formed view with its explicit flag, trimmed source, times in
-- their format and no relationship to the fact itself.
pub parse-IsParsed :
    (p : Payload) (point_id : Text) (v : View)
    → parse p point_id ≡ accepted v
    → IsParsed p point_id v
parse-IsParsed p point_id v h =
    accepted_outcome (IsParsed p point_id) (parse p point_id) v (parse-Outcome p point_id) h

-- The view of a payload is marked valid exactly if Parse accepts the payload, and then it is well
-- formed.
pub lifecycle_view-valid_iff :
    (p : Payload) (point_id : Text)
    → ((lifecycle_view point_id p).valid ≡ true)
      ↔ (parse p point_id ≡ accepted (lifecycle_view point_id p))
        × IsParsed p point_id (lifecycle_view point_id p)
lifecycle_view-valid_iff p point_id = (
  unfold lifecycle_view in
      valid-Outcome (IsParsed p point_id) (parse p point_id) (parse-Outcome p point_id),
  λ h. h.1.0.valid,
)
