-- ===== src/Lifecycle/Write/Laws.antt =====
-- The bounds of the arguments that parseLifecycleInput of internal/memory/lifecycle_write.go
-- accepts.
use personal_memory.Go.Json.{null, bool, str, number, float, arr, strs, obj}
use personal_memory.Prelude.{
  ◌>>=◌, ◌&&◌, All, Bool, Bool-cases, List, Option, [], ap, arith, false, if◌then◌else◌, inl, inr,
  length, ltb, none, not, refl, some, some_inj, subst, suc, true, ℕ, ◌∷◌, ◌≡◌, ◌≤◌, ◌∙◌,
}
use personal_memory.Go.Json.{Fields, Value, get, strs, arr, bool, str, number, float, obj}
use personal_memory.Lifecycle.Model.{Input, Provenance, State}
use personal_memory.Go.Text.{Text, is_empty, trim_space}
use personal_memory.Lifecycle.Write.{
  bool_param, bounded, bounded_ids, checked_ids, parse_lifecycle_input, parse_present,
  provenance_param, relationship_param, string_param, strings_of, is_present, sized, input_of,
  provenance_argument, state_argument, verified_argument,
}

bind-eq-some {ℓ μ} :
    {V : Type ℓ} {W : Type μ} {w : W} (m : Option V) (next : V → Option W)
    → (m >>= next) ≡ some w
    → (v : V) × (m ≡ some v) × (next v ≡ some w)
bind-eq-some none next h = cc
bind-eq-some (some v) next h = (v, refl, h)

if_none :
    {A : Type 0} {a b : A} (t : Bool)
    → (if t then none else some a) ≡ some b
    → (t ≡ false) × (a ≡ b)
if_none true h = cc
if_none false h = (refl, some_inj h)

bounded_lem :
    (required : Bool) (max : ℕ) (t u : Text)
    → bounded required max t ≡ some u
    → (length u ≤ max) × ((required && is_empty (trim_space u)) ≡ false)
unfolding bounded
bounded_lem required max t u h = elim (Bool-cases (required && is_empty (trim_space t))) [
  | inl e ↦ ground arith
  | inr e ↦
      let (l, same) = if_none (ltb max (length t)) (rw e at h) in
      subst (λ x. (length x ≤ max) × ((required && is_empty (trim_space x)) ≡ false)) same
        (ground arith, e)
]

-- A relationship id as the tool accepts it.
abbrev pub IsPlainId : Text → Type 0
IsPlainId t = (length t ≤ 255) × (is_empty (trim_space t) ≡ false)

abbrev pub ArePlainIds : List Text → Type 0
ArePlainIds ts = (length ts ≤ 100) × All IsPlainId ts

bounded_ids-All :
    (ts us : List Text) → bounded_ids ts ≡ some us → (length us ≡ length ts) × All IsPlainId us
unfolding bounded_ids
bounded_ids-All [] us h = subst (λ x. (length x ≡ 0) × All IsPlainId x) (some_inj h) (refl, tt)
bounded_ids-All (t ∷ ts) us h =
    let (id, a, h) = bind-eq-some (bounded true 255 t) _ h in
    let (rest, b, h) = bind-eq-some (bounded_ids ts) _ h in
    let (same, all) = bounded_ids-All ts rest b in
    subst (λ x. (length x ≡ suc (length ts)) × All IsPlainId x) (some_inj h)
      (ap suc same, (bounded_lem true 255 t id a, all))

checked_ids-ArePlainIds : (ts us : List Text) → checked_ids ts ≡ some us → ArePlainIds us
unfolding checked_ids
checked_ids-ArePlainIds ts us h = elim (Bool-cases (ltb 100 (length ts))) [
  | inl e ↦ ground arith
  | inr e ↦ let (same, all) = bounded_ids-All ts us (rw e at h) in (ground arith, all)
]

relationship_param-ArePlainIds :
    (v : Option Value) (us : List Text) → relationship_param v ≡ some us → ArePlainIds us
unfolding relationship_param
relationship_param-ArePlainIds none us h = subst ArePlainIds (some_inj h) (omega arith, tt)
relationship_param-ArePlainIds (some null) us h = subst ArePlainIds (some_inj h) (omega arith, tt)
relationship_param-ArePlainIds (some (strs ts)) us h = checked_ids-ArePlainIds ts us h
relationship_param-ArePlainIds (some (arr xs)) us h =
    let (ts, _, k) = bind-eq-some (strings_of xs) checked_ids h in checked_ids-ArePlainIds ts us k
relationship_param-ArePlainIds (some (bool b)) us h = cc
relationship_param-ArePlainIds (some (str t)) us h = cc
relationship_param-ArePlainIds (some (number t)) us h = cc
relationship_param-ArePlainIds (some (float x)) us h = cc
relationship_param-ArePlainIds (some (obj m)) us h = cc

abbrev pub IsPlainProvenance : Option Provenance → Type 0
IsPlainProvenance none = Unit
IsPlainProvenance (some p) =
    (length p.source ≤ 255)
    × ((is_empty (trim_space p.source) ≡ false) × (length p.reference ≤ 2048))

provenance_param-IsPlainProvenance :
    (source reference : Text) (p : Option Provenance)
    → length source ≤ 255
    → length reference ≤ 2048
    → provenance_param source reference ≡ some p
    → IsPlainProvenance p
provenance_param-IsPlainProvenance source reference p a b h =
    elim (Bool-cases (not (is_empty reference) && is_empty (trim_space source))) [
      | inl e ↦ cc_none (rw e at h)
      | inr e ↦ blank (rw e at h)
    ]
  where
    cc_none : none ≡ some p → IsPlainProvenance p
    cc_none k = cc

    blank :
        (if is_empty (trim_space source)
            then some none
            else some (some (record { source = source; reference = reference })))
          ≡ some p
        → IsPlainProvenance p
    blank k = elim (Bool-cases (is_empty (trim_space source))) [
      | inl e ↦ subst IsPlainProvenance (some_inj (rw e at k)) tt
      | inr e ↦ subst IsPlainProvenance (some_inj (rw e at k)) (a, (e, b))
    ]

-- Lifecycle input within the limits of a tool call.
pub record IsPlainInput (size : Input → ℕ) (i : Input) : Type 0 where
  pub provenance : IsPlainProvenance i.provenance
  pub verified_at : length i.verified_at ≤ 64
  pub supersedes : ArePlainIds i.supersedes
  pub superseded_by : ArePlainIds i.superseded_by
  pub encoded : size i ≤ 65536

provenance_argument-IsPlainProvenance :
    (args : Fields) (p : Option Provenance)
    → provenance_argument args ≡ some p
    → IsPlainProvenance p
unfolding provenance_argument
provenance_argument-IsPlainProvenance args p h =
    let (t1, _, h) = bind-eq-some (string_param (get "provenance_source" args)) _ h in
    let (t2, _, h) = bind-eq-some (string_param (get "provenance_reference" args)) _ h in
    let (source, a, h) = bind-eq-some (bounded false 255 t1) _ h in
    let (reference, b, c) = bind-eq-some (bounded false 2048 t2) (provenance_param source) h in
    provenance_param-IsPlainProvenance source reference p (bounded_lem false 255 t1 source a).0
      (bounded_lem false 2048 t2 reference b).0 c

length-verified_argument :
    (args : Fields) (t : Text) → verified_argument args ≡ some t → length t ≤ 64
unfolding verified_argument
length-verified_argument args t h =
    let (u, _, k) = bind-eq-some (string_param (get "verified_at" args)) (bounded false 64) h in
    (bounded_lem false 64 u t k).0

module _ (size : Input → ℕ) where
  sized-IsPlainInput :
      (j i : Input)
      → IsPlainProvenance j.provenance
      → length j.verified_at ≤ 64
      → ArePlainIds j.supersedes
      → ArePlainIds j.superseded_by
      → sized size j ≡ some i
      → IsPlainInput size i
  sized-IsPlainInput j i a b c d h =
      let (fits, same) = if_none (ltb 65536 (size j)) h in
      subst (IsPlainInput size) same (record {
        provenance = a;
        verified_at = b;
        supersedes = c;
        superseded_by = d;
        encoded = ground arith;
      })

  input_of-IsPlainInput :
      (state : State) (canonical : Bool) (p : Option Provenance) (args : Fields) (i : Input)
      → IsPlainProvenance p
      → input_of size state canonical p args ≡ some i
      → IsPlainInput size i
  unfolding input_of
  input_of-IsPlainInput state canonical p args i plain h =
      let (time, d, h) = bind-eq-some (verified_argument args) _ h in
      let (ids, e, h) = bind-eq-some (relationship_param (get "supersedes" args)) _ h in
      let (others, f, h) = bind-eq-some (relationship_param (get "superseded_by" args)) _ h in
      sized-IsPlainInput _ i plain (length-verified_argument args time d)
        (relationship_param-ArePlainIds (get "supersedes" args) ids e)
        (relationship_param-ArePlainIds (get "superseded_by" args) others f) h

  parse_present-IsPlainInput :
      (require_state : Bool) (args : Fields) (i : Input)
      → parse_present size require_state args ≡ some i
      → IsPlainInput size i
  unfolding parse_present
  parse_present-IsPlainInput require_state args i h =
      let (state, _, h) = bind-eq-some (state_argument require_state args) _ h in
      let (canonical, _, h) = bind-eq-some (bool_param (get "canonical" args)) _ h in
      let (p, c, h) = bind-eq-some (provenance_argument args) _ h in
      input_of-IsPlainInput state canonical p args i
        (provenance_argument-IsPlainProvenance args p c) h

  -- Lifecycle input that is accepted keeps within the limits of its texts, of the number and the
  -- length of its relationships, and of its encoded size.
  pub parse_lifecycle_input-IsPlainInput :
      (require_state : Bool) (args : Fields) (i : Input)
      → parse_lifecycle_input size require_state args ≡ some (some i)
      → IsPlainInput size i
  unfolding parse_lifecycle_input
  parse_lifecycle_input-IsPlainInput require_state args i h = elim (Bool-cases (is_present args)) [
    | inl e ↦
        let (j, k, same) =
          bind-eq-some (parse_present size require_state args) (λ x. some (some x)) (rw e at h) in
        parse_present-IsPlainInput require_state args i (k ∙ some_inj same)
    | inr e ↦ absent require_state (rw e at h)
  ]
    where
      absent : (b : Bool) → (if b then none else some none) ≡ some (some i) → IsPlainInput size i
      absent true k = cc
      absent false k = cc
