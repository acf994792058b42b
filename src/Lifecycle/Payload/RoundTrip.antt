-- ===== src/Lifecycle/Payload/RoundTrip.antt =====
-- Parse after ApplyToPayload: each stage reads back what the payload form of a view holds.
use personal_memory.Lifecycle.Model.{
  current, historical, superseded, disputed, unknown, Provenance, Relation, State, View, is_some,
  state_text, ok,
}
use personal_memory.Go.Json.{str, strs, get, items_of}
use personal_memory.Prelude.{
  ◌&&◌, All, List, Option, [], arith, false, none, not, refl, some, sym, true, ◌∙◌, ◌∷◌, ◌≡◌, ◌≢◌,
}
use personal_memory.Lifecycle.Model.Laws.{
  Distinct, Fresh, Fresh-nil, IsNormal, IsNormalId, IsWellFormed, cons-Fresh, ne-is_empty,
  not_mem→contains, validate_iff,
}
use personal_memory.Lifecycle.Payload.Laws.{
  HoldsView, apply_to_payload-HoldsView, provenance_option, text_option,
}
use personal_memory.Lifecycle.Parse.Laws.{IsParsed, parse-IsParsed}
use personal_memory.Lifecycle.Parse.{
  Parsed, Payload, initial, is_legacy, normalize_point_id, parse, parse_canonical, parse_ids,
  parse_provenance, parse_provenance_field, parse_relationships, parse_state, parse_superseded_by,
  parse_supersedes, parse_transitioned_at, parse_verified_at, validate_view, accepted, ◌>=>◌,
}
use personal_memory.Go.Text.{Text, is_empty, text_eq, trim_space}
use personal_memory.Lifecycle.Payload.{apply_to_payload, provenance_value}
use personal_memory.Go.Time.{parse_rfc3339}
use personal_memory.Go.Text.Laws.{text_eq_iff}

state_kept :
    (s : State) (u : View)
    → ((t : Text) → s ≢ unknown t)
    → parse_state (some (str (state_text s))) u ≡ accepted (record u { state = s })
unfolding parse_state state_text trim_space text_eq
state_kept (unknown t) u h = absurd (h t refl)
state_kept current u h = refl
state_kept historical u h = refl
state_kept superseded u h = refl
state_kept disputed u h = refl

provenance_parts :
    (s r : Text)
    → trim_space s ≢ []
    → trim_space s ≡ s
    → parse_provenance (provenance_value (record { source = s; reference = r }))
      ≡ ok (record { source = s; reference = r })
unfolding parse_provenance provenance_value get
provenance_parts s [] n t = rw (ne-is_empty (trim_space s) n, t)
provenance_parts s (c ∷ r) n t = rw (ne-is_empty (trim_space s) n, t)

provenance_read :
    (p : Provenance)
    → trim_space p.source ≢ []
    → trim_space p.source ≡ p.source
    → parse_provenance (provenance_value p) ≡ ok p
provenance_read p n t = provenance_parts p.source p.reference n t

provenance_kept :
    (o : Option Provenance) (u : View)
    → u.provenance ≡ none
    → ((p : Provenance) → o ≡ some p → trim_space p.source ≢ [])
    → ((p : Provenance) → o ≡ some p → trim_space p.source ≡ p.source)
    → parse_provenance_field (provenance_option o) u ≡ accepted (record u { provenance = o })
unfolding parse_provenance_field
provenance_kept none u e n t = λ i. accepted (record u { provenance = e i })
provenance_kept (some p) u e n t = rw (provenance_read p (n p refl) (t p refl))

verified_at_kept :
    (t : Text) (u : View)
    → u.verified_at ≡ []
    → (t ≢ [] → is_some (parse_rfc3339 t) ≡ true)
    → parse_verified_at (text_option t) u ≡ accepted (record u { verified_at = t })
unfolding parse_verified_at
verified_at_kept [] u e h = λ i. accepted (record u { verified_at = e i })
verified_at_kept (c ∷ t) u e h = rw (h (λ z. cc))

transitioned_at_kept :
    (t : Text) (u : View)
    → u.transitioned_at ≡ []
    → (t ≢ [] → (text_eq (trim_space t) t && is_some (parse_rfc3339 t)) ≡ true)
    → parse_transitioned_at (text_option t) u ≡ accepted (record u { transitioned_at = t })
unfolding parse_transitioned_at
transitioned_at_kept [] u e h = λ i. accepted (record u { transitioned_at = e i })
transitioned_at_kept (c ∷ t) u e h = rw (h (λ z. cc))

other_test :
    (self id : Text) → (self ≢ [] → id ≢ self) → not (not (is_empty self) && text_eq id self) ≡ true
other_test [] id h = refl
other_test (c ∷ self) id h = let ne = h (λ e. cc) in ground (arith, text_eq_iff id (c ∷ self), ne)

-- Normal ids come back as they are.
ids_kept :
    (f : Relation) (self : Text) (seen ids : List Text)
    → All IsNormalId ids
    → Distinct ids
    → Fresh seen ids
    → (self ≢ [] → All (λ id. id ≢ self) ids)
    → parse_ids f self seen (items_of ids) ≡ ok ids
unfolding parse_ids items_of normalize_point_id
ids_kept f self seen [] n d r o = refl
ids_kept f self seen (id ∷ ids) n d r o =
    let test = other_test self id (λ z. (o z).0) in
    let ih =
      ids_kept f self (id ∷ seen) ids n.1 d.1 (cons-Fresh id seen ids d.0 r.1) (λ z. (o z).1) in
    rw (n.0.1, ne-is_empty id n.0.0, test, ih, not_mem→contains id seen r.0)

relations_kept :
    (f : Relation) (point_id : Text) (ids : List Text)
    → IsNormal ids
    → (trim_space point_id ≢ [] → All (λ id. id ≢ trim_space point_id) ids)
    → parse_relationships f point_id (strs ids) ≡ ok ids
unfolding parse_relationships
relations_kept f point_id ids n o =
    ids_kept f (trim_space point_id) [] ids n.normal n.distinct (Fresh-nil ids) o

supersedes_kept :
    (point_id : Text) (ids : List Text) (u : View)
    → parse_relationships Relation.supersedes point_id (strs ids) ≡ ok ids
    → parse_supersedes point_id (some (strs ids)) u ≡ accepted (record u { supersedes = ids })
unfolding parse_supersedes
supersedes_kept point_id ids u e = rw e

superseded_by_kept :
    (point_id : Text) (ids : List Text) (u : View)
    → parse_relationships Relation.superseded_by point_id (strs ids) ≡ ok ids
    → parse_superseded_by point_id (some (strs ids)) u ≡ accepted (record u { superseded_by = ids })
unfolding parse_superseded_by
superseded_by_kept point_id ids u e = rw e

validate_kept : (u : View) → IsWellFormed u → validate_view u ≡ accepted u
unfolding validate_view
validate_kept u w = rw ((validate_iff u).1 w)

-- A stage after one that accepted.
go_on :
    (m : Parsed) (f : View → Parsed) (u w : View)
    → m ≡ accepted u
    → f u ≡ accepted w
    → (m >=> f) ≡ accepted w
go_on m f u w e k = rw e k

-- The view without what its payload form does not carry.
abbrev pub explicit : View → View
explicit v = record v { legacy = false; valid = true; invalid_reason = none }

explicit-IsWellFormed : (v : View) → IsWellFormed v → IsWellFormed (explicit v)
explicit-IsWellFormed v w = record {
  valid = refl;
  known = w.known;
  sourced = w.sourced;
  verified = w.verified;
  supersedes = w.supersedes;
  superseded_by = w.superseded_by;
  canonical_current = w.canonical_current;
  superseded_succeeded = w.superseded_succeeded;
  current_unsucceeded = w.current_unsucceeded;
}

held_legacy : (p : Payload) (v : View) → HoldsView p v → is_legacy p ≡ false
unfolding is_legacy
held_legacy p v h = rw h.state

-- A payload that holds the parts of a parsed view is parsed to that view.
parse-HoldsView :
    (p q : Payload) (point_id : Text) (v : View)
    → HoldsView p v
    → IsParsed q point_id v
    → parse p point_id ≡ accepted (explicit v)
unfolding parse parse_canonical
parse-HoldsView p q point_id v h (w, c) =
    let u0 = initial false in
    let u1 = record u0 { state = v.state } in
    let u2 = record u1 { canonical = v.canonical } in
    let u3 = record u2 { provenance = v.provenance } in
    let u4 = record u3 { verified_at = v.verified_at } in
    let u5 = record u4 { transitioned_at = v.transitioned_at } in
    let u6 = record u5 { supersedes = v.supersedes } in
    let u7 = record u6 { superseded_by = v.superseded_by } in
    let s1 = state_kept v.state u0 w.known in
    let s3 = provenance_kept v.provenance u2 refl w.sourced c.source_trimmed in
    let s4 = verified_at_kept v.verified_at u3 refl w.verified in
    let s5 = transitioned_at_kept v.transitioned_at u4 refl c.transitioned in
    let s6 =
      supersedes_kept point_id v.supersedes u5 (
        relations_kept Relation.supersedes point_id v.supersedes w.supersedes
          c.supersedes_others) in
    let s7 = superseded_by_kept point_id v.superseded_by u6 (
      relations_kept Relation.superseded_by point_id v.superseded_by w.superseded_by
        c.superseded_by_others) in
    let s8 = validate_kept u7 (explicit-IsWellFormed v w) in
    rw
      (
        held_legacy p v h,
        h.state,
        h.canonical,
        h.provenance,
        h.verified_at,
        h.transitioned_at,
        h.supersedes,
        h.superseded_by,
      )
      (rw (s1, s3, s4, s5, s6, s7, s8))

-- A view that Parse accepted is parsed back from every payload that ApplyToPayload puts it in:
-- nothing is lost but the legacy flag, which becomes false.
pub parse-apply_to_payload :
    (p q : Payload) (point_id : Text) (v : View)
    → parse p point_id ≡ accepted v
    → parse (apply_to_payload q v) point_id ≡ accepted (record v { legacy = false })
parse-apply_to_payload p q point_id v h =
    let good = parse-IsParsed p point_id v h in
    parse-HoldsView (apply_to_payload q v) p point_id v (apply_to_payload-HoldsView q v) good
    ∙ (λ i. accepted (record v {
      legacy = false;
      valid = sym good.0.valid i;
      invalid_reason = sym good.1.no_reason i;
    }))
