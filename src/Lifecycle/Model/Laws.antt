-- ===== src/Lifecycle/Model/Laws.antt =====
-- What Validate and ValidateTransition of internal/memory/lifecycle/model.go accept.
use personal_memory.Prelude.{
  ◌≡◌, ◌≢◌, ◌↔◌, refl, sym, Bool, true, false, not, ◌&&◌, ◌||◌, Option, none, some, List, [], ◌∷◌,
  arith, All, inl, inr, ◌⊎◌,
}
use personal_memory.Go.Text.{Text, text_eq, is_empty, trim_space}
use personal_memory.Go.Text.Laws.{text_eq_iff}
use personal_memory.Go.Time.{parse_rfc3339}
use personal_memory.Lifecycle.Model.{
  State, current, superseded, unknown, is_valid_state, is_current, is_superseded, Provenance,
  Relation, Result, ok, err, View, require, is_some, contains, validate_relations, Reason,
  canonical_not_current, source_malformed, state_invalid, superseded_without_successor,
  verified_at_format, view_invalid, has_source, is_no_ids, validate, ◌>>◌, ◌>>=◌,
}

abbrev pub Distinct : List Text → Type 0
Distinct [] = Unit
Distinct (x ∷ xs) = All (λ y. x ≢ y) xs × Distinct xs

-- An id that is not empty and has no space around it.
abbrev pub IsNormalId : Text → Type 0
IsNormalId id = (id ≢ []) × (trim_space id ≡ id)

-- What a list of relationships must be.
pub record IsNormal (ids : List Text) : Type 0 where
  pub normal : All IsNormalId ids
  pub distinct : Distinct ids

-- The rules of a lifecycle view, as the program's documentation words them.
pub record IsWellFormed (v : View) : Type 0 where
  pub valid : v.valid ≡ true
  pub known : (t : Text) → v.state ≢ unknown t
  pub sourced : (p : Provenance) → v.provenance ≡ some p → trim_space p.source ≢ []
  pub verified : v.verified_at ≢ [] → is_some (parse_rfc3339 v.verified_at) ≡ true
  pub supersedes : IsNormal v.supersedes
  pub superseded_by : IsNormal v.superseded_by
  pub canonical_current : v.canonical ≡ true → v.state ≡ current
  pub superseded_succeeded : v.state ≡ superseded → v.superseded_by ≢ []
  pub current_unsucceeded : v.state ≡ current → v.superseded_by ≡ []

pub contains→mem : (t : Text) (ss : List Text) → contains t ss ≡ false → All (λ s. s ≢ t) ss
unfolding contains
contains→mem t [] h = tt
contains→mem t (s ∷ ss) h = (ground (arith, text_eq_iff s t), contains→mem t ss (ground arith))

pub not_mem→contains : (t : Text) (ss : List Text) → All (λ s. s ≢ t) ss → contains t ss ≡ false
unfolding contains
not_mem→contains t [] h = refl
not_mem→contains t (s ∷ ss) h = ground (arith, text_eq_iff s t, not_mem→contains t ss h.1)

-- `xs` has nothing of `seen`.
abbrev pub Fresh : List Text → List Text → Type 0
Fresh seen xs = All (λ x. All (λ s. s ≢ x) seen) xs

-- The loop accepts normal, distinct ids that are not among those seen.
abbrev Accepts : List Text → List Text → Type 0
Accepts seen ids = All IsNormalId ids × Distinct ids × Fresh seen ids

Fresh-cons :
    (id : Text) (seen ids : List Text)
    → Fresh (id ∷ seen) ids
    → All (λ y. id ≢ y) ids × Fresh seen ids
Fresh-cons id seen [] h = (tt, tt)
Fresh-cons id seen (x ∷ xs) h = let (a, b) = Fresh-cons id seen xs h.1 in ((h.0.0, a), (h.0.1, b))

pub cons-Fresh :
    (id : Text) (seen ids : List Text)
    → All (λ y. id ≢ y) ids
    → Fresh seen ids
    → Fresh (id ∷ seen) ids
cons-Fresh id seen [] h k = tt
cons-Fresh id seen (x ∷ xs) h k = ((h.0, k.0), cons-Fresh id seen xs h.1 k.1)

pub is_empty-false : (t : Text) → is_empty t ≡ false → t ≢ []
is_empty-false [] h = cc
is_empty-false (c ∷ t) h = λ e. cc

pub ne-is_empty : (t : Text) → t ≢ [] → is_empty t ≡ false
ne-is_empty [] h = absurd (h refl)
ne-is_empty (c ∷ t) h = refl

-- The four tests of one round.
validate_relations_step :
    (f : Relation) (seen : List Text) (id : Text) (ids : List Text)
    → validate_relations f seen (id ∷ ids) ≡ ok tt
    → (is_empty (trim_space id) ≡ false)
      × (text_eq id (trim_space id) ≡ true)
      × (contains (trim_space id) seen ≡ false)
      × (validate_relations f (id ∷ seen) ids ≡ ok tt)
unfolding validate_relations
validate_relations_step f seen id ids h = ground arith

validate_relations→Accepts :
    (f : Relation) (seen ids : List Text) → validate_relations f seen ids ≡ ok tt → Accepts seen ids
unfolding validate_relations
validate_relations→Accepts f seen [] h = (tt, tt, tt)
validate_relations→Accepts f seen (id ∷ ids) h =
    let (filled, trimmed, fresh, rest) = validate_relations_step f seen id ids h in
    let same : trim_space id ≡ id = sym ((text_eq_iff id (trim_space id)).0 trimmed) in
    let (normal, distinct, others) = validate_relations→Accepts f (id ∷ seen) ids rest in
    let (apart, unseen) = Fresh-cons id seen ids others in
    (
      ((rw same at (is_empty-false (trim_space id) filled), same), normal),
      (apart, distinct),
      (contains→mem id seen (rw same at fresh), unseen),
    )

Accepts→validate_relations :
    (f : Relation) (seen ids : List Text) → Accepts seen ids → validate_relations f seen ids ≡ ok tt
unfolding validate_relations
Accepts→validate_relations f seen [] h = refl
Accepts→validate_relations f seen (id ∷ ids) (normal, distinct, fresh) = ground (
  arith,
  normal.0.1,
  ne-is_empty id normal.0.0,
  text_eq_iff id id,
  not_mem→contains id seen fresh.0,
  Accepts→validate_relations f (id ∷ seen) ids
      (normal.1, distinct.1, cons-Fresh id seen ids distinct.0 fresh.1),
)

pub Fresh-nil : (ids : List Text) → Fresh [] ids
Fresh-nil [] = tt
Fresh-nil (id ∷ ids) = (tt, Fresh-nil ids)

-- The loop over a list of relationships accepts exactly the normal ones.
validate_relations_iff :
    (f : Relation) (ids : List Text) → (validate_relations f [] ids ≡ ok tt) ↔ IsNormal ids
validate_relations_iff f ids = (
  λ h. let (a, b, _) = validate_relations→Accepts f [] ids h in record { normal = a; distinct = b },
  λ n. Accepts→validate_relations f [] ids (n.normal, n.distinct, Fresh-nil ids),
)

-- A step that succeeds before another.
pub >>-eq-ok {ℓ} :
    {B : Type ℓ} (m : Result (Unit {0})) (k : Result B) {b : B}
    → (m >> k) ≡ ok b
    → (m ≡ ok tt) × (k ≡ ok b)
>>-eq-ok (ok tt) k h = (refl, h)
>>-eq-ok (err r) k h = cc

pub require-eq-ok : (b : Bool) (r : Reason) → require b r ≡ ok tt → b ≡ true
require-eq-ok true r h = refl
require-eq-ok false r h = cc

abbrev verified_test : View → Bool
verified_test v = is_empty v.verified_at || is_some (parse_rfc3339 v.verified_at)

abbrev canonical_test : View → Bool
canonical_test v = not (v.canonical && not (is_current v.state))

abbrev superseded_test : View → Bool
superseded_test v = not (is_superseded v.state && is_no_ids v.superseded_by)

abbrev current_test : View → Bool
current_test v = not (is_current v.state && not (is_no_ids v.superseded_by))

-- The tests of Validate, one by one.
record Tests (v : View) : Type 0 where
  valid : v.valid ≡ true
  known : is_valid_state v.state ≡ true
  sourced : has_source v.provenance ≡ true
  verified : verified_test v ≡ true
  supersedes : validate_relations Relation.supersedes [] v.supersedes ≡ ok tt
  superseded_by : validate_relations Relation.superseded_by [] v.superseded_by ≡ ok tt
  canonical : canonical_test v ≡ true
  succeeded : superseded_test v ≡ true
  unsucceeded : current_test v ≡ true

validate→Tests : (v : View) → validate v ≡ ok tt → Tests v
unfolding validate
validate→Tests v h =
    let (a, h) = >>-eq-ok (require v.valid view_invalid) _ h in
    let (b, h) = >>-eq-ok (require (is_valid_state v.state) state_invalid) _ h in
    let (c, h) = >>-eq-ok (require (has_source v.provenance) source_malformed) _ h in
    let (d, h) = >>-eq-ok (require (verified_test v) verified_at_format) _ h in
    let (e, h) = >>-eq-ok (validate_relations Relation.supersedes [] v.supersedes) _ h in
    let (f, h) = >>-eq-ok (validate_relations Relation.superseded_by [] v.superseded_by) _ h in
    let (g, h) = >>-eq-ok (require (canonical_test v) canonical_not_current) _ h in
    let (k, h) = >>-eq-ok (require (superseded_test v) superseded_without_successor) _ h in
    record {
      valid = require-eq-ok _ _ a;
      known = require-eq-ok _ _ b;
      sourced = require-eq-ok _ _ c;
      verified = require-eq-ok _ _ d;
      supersedes = e;
      superseded_by = f;
      canonical = require-eq-ok _ _ g;
      succeeded = require-eq-ok _ _ k;
      unsucceeded = require-eq-ok _ _ h;
    }

Tests→validate : (v : View) → Tests v → validate v ≡ ok tt
unfolding validate
Tests→validate v t = rw (t.valid) (
    rw (t.known) (
      rw (t.sourced) (
        rw (t.verified) (
          rw (t.supersedes)
            (rw (t.superseded_by) (rw (t.canonical) (rw (t.succeeded) (rw (t.unsucceeded)))))))))

sourced_iff :
    (o : Option Provenance)
    → (has_source o ≡ true) ↔ ((p : Provenance) → o ≡ some p → trim_space p.source ≢ [])
sourced_iff none = (λ _ p e. cc, λ _. refl)
sourced_iff (some q) = (
  λ h p e. λ z. ground (arith, e, z),
  λ h. ground (arith, ne-is_empty (trim_space q.source) (h q refl)),
)

known_iff : (s : State) → (is_valid_state s ≡ true) ↔ ((t : Text) → s ≢ unknown t)
known_iff (unknown t) = (λ h. cc, λ h. absurd (h t refl))
known_iff _ = (λ _ t e. cc, λ _. refl)

verified_iff : (t : Text) (b : Bool) → ((is_empty t || b) ≡ true) ↔ (t ≢ [] → b ≡ true)
verified_iff [] b = (λ _ h. absurd (h refl), λ _. refl)
verified_iff (c ∷ t) b = (λ h _. h, λ h. h (λ e. cc))

canonical_iff :
    (c : Bool) (s : State) → (not (c && not (is_current s)) ≡ true) ↔ (c ≡ true → s ≡ current)
canonical_iff false s = (λ _ e. cc, λ _. refl)
canonical_iff true current = (λ _ _. refl, λ _. refl)
canonical_iff true _ = (λ h. cc, λ h. cc (h refl))

succeeded_iff :
    (s : State) (ids : List Text)
    → (not (is_superseded s && is_no_ids ids) ≡ true) ↔ (s ≡ superseded → ids ≢ [])
succeeded_iff superseded [] = (λ h. cc, λ h. absurd (h refl refl))
succeeded_iff superseded (x ∷ xs) = (λ _ _ e. cc, λ _. refl)
succeeded_iff _ ids = (λ _ e. cc, λ _. refl)

unsucceeded_iff :
    (s : State) (ids : List Text)
    → (not (is_current s && not (is_no_ids ids)) ≡ true) ↔ (s ≡ current → ids ≡ [])
unsucceeded_iff current [] = (λ _ _. refl, λ _. refl)
unsucceeded_iff current (x ∷ xs) = (λ h. cc, λ h. cc (h refl))
unsucceeded_iff _ ids = (λ _ e. cc, λ _. refl)

Tests→IsWellFormed : (v : View) → Tests v → IsWellFormed v
Tests→IsWellFormed v t = record {
  valid = t.valid;
  known = (known_iff v.state).0 t.known;
  sourced = (sourced_iff v.provenance).0 t.sourced;
  verified = (verified_iff v.verified_at _).0 t.verified;
  supersedes = (validate_relations_iff Relation.supersedes v.supersedes).0 t.supersedes;
  superseded_by = (validate_relations_iff Relation.superseded_by v.superseded_by).0 t.superseded_by;
  canonical_current = (canonical_iff v.canonical v.state).0 t.canonical;
  superseded_succeeded = (succeeded_iff v.state v.superseded_by).0 t.succeeded;
  current_unsucceeded = (unsucceeded_iff v.state v.superseded_by).0 t.unsucceeded;
}

IsWellFormed→Tests : (v : View) → IsWellFormed v → Tests v
IsWellFormed→Tests v w = record {
  valid = w.valid;
  known = (known_iff v.state).1 w.known;
  sourced = (sourced_iff v.provenance).1 w.sourced;
  verified = (verified_iff v.verified_at _).1 w.verified;
  supersedes = (validate_relations_iff Relation.supersedes v.supersedes).1 w.supersedes;
  superseded_by = (validate_relations_iff Relation.superseded_by v.superseded_by).1 w.superseded_by;
  canonical = (canonical_iff v.canonical v.state).1 w.canonical_current;
  succeeded = (succeeded_iff v.state v.superseded_by).1 w.superseded_succeeded;
  unsucceeded = (unsucceeded_iff v.state v.superseded_by).1 w.current_unsucceeded;
}

-- Validate accepts a view exactly if it is well formed.
pub validate_iff : (v : View) → (validate v ≡ ok tt) ↔ IsWellFormed v
validate_iff v =
    (λ h. Tests→IsWellFormed v (validate→Tests v h), λ w. Tests→validate v (IsWellFormed→Tests v w))

pub Result-cases {ℓ} :
    {A : Type ℓ} (r : Result A) → ((a : A) × (r ≡ ok a)) ⊎ ((e : Reason) × (r ≡ err e))
Result-cases (ok a) = inl (a, refl)
Result-cases (err e) = inr (e, refl)

pub ok_inj {ℓ} : {A : Type ℓ} {a b : A} → ok a ≡ ok b → a ≡ b
ok_inj h = cc

pub >>=-eq-ok {ℓ μ} :
    {V : Type ℓ} {W : Type μ} {w : W} (r : Result V) (next : V → Result W)
    → (r >>= next) ≡ ok w
    → (v : V) × (r ≡ ok v) × (next v ≡ ok w)
>>=-eq-ok (err reason) next h = cc
>>=-eq-ok (ok v) next h = (v, refl, h)
