-- ===== src/Facts/Subject/Laws.antt =====
-- What subjectArguments of internal/memory/subject.go accepts, and the namespaces that
-- NormalizeNamespace of internal/memory/id.go gives.
use personal_memory.Prelude.{
  ◌≡◌, ◌&&◌, Bool, Bool-cases, Option, [], arith, false, inl, inr, length, none, not, refl, some,
  some_inj, subst, true, ℕ, ◌∷◌, ◌≤◌, ◌⊎◌,
}
use personal_memory.Go.Json.{null, bool, str, number, float, arr, strs, obj, Fields, Value, get}
use personal_memory.Facts.Subject.{
  FactSubject, is_scope, is_string_or_absent, or_unknown, str_param, subject_arguments,
  validate_subject,
}
use personal_memory.Go.Text.{Text, is_empty, text, text_eq}
use personal_memory.Lifecycle.Write.{bounded}
use personal_memory.Lifecycle.Model.{is_some}
use personal_memory.Go.Text.Laws.{text_eq_iff}

-- An argument that is the text, or is absent where the text is empty
abbrev pub HoldsText : Option Value → Text → Type 0
HoldsText o t = (o ≡ some (str t)) ⊎ ((o ≡ none) × (t ≡ []))

-- The scope that a text stands for
abbrev pub StandsFor : Text → Text → Type 0
StandsFor t scope =
    ((is_empty t ≡ true) × (scope ≡ text "unknown")) ⊎ ((is_empty t ≡ false) × (scope ≡ t))

-- What a declared subject is, by the arguments that declare it
pub record IsDeclared (valid_string : Text → Bool) (args : Fields) (s : FactSubject) : Type 0 where
  pub is_given : ¬ ((get "subject_scope" args ≡ none) × (get "subject_context" args ≡ none))
  pub scope_text : Text
  pub scope_given : HoldsText (get "subject_scope" args) scope_text
  pub scope_stands : StandsFor scope_text s.scope
  pub scope_known :
      (s.scope ≡ text "project") ⊎ ((s.scope ≡ text "non_project") ⊎ (s.scope ≡ text "unknown"))
  pub context_given : HoldsText (get "subject_context" args) s.context
  pub context_valid : valid_string s.context ≡ true
  pub context_bounded : length s.context ≤ 2048
  pub by_client : s.source_kind ≡ text "client_declared"

str_param-HoldsText : (o : Option Value) → is_string_or_absent o ≡ true → HoldsText o (str_param o)
unfolding str_param
str_param-HoldsText none h = inr (refl, refl)
str_param-HoldsText (some (str t)) h = inl refl
str_param-HoldsText (some null) h = cc
str_param-HoldsText (some (bool b)) h = cc
str_param-HoldsText (some (number t)) h = cc
str_param-HoldsText (some (float x)) h = cc
str_param-HoldsText (some (arr xs)) h = cc
str_param-HoldsText (some (strs ts)) h = cc
str_param-HoldsText (some (obj m)) h = cc

or_unknown-StandsFor : (t : Text) → StandsFor t (or_unknown t)
or_unknown-StandsFor [] = inl (refl, refl)
or_unknown-StandsFor (c ∷ t) = inr (refl, refl)

is_scope-cases :
    (t : Text)
    → is_scope t ≡ true
    → (t ≡ text "project") ⊎ ((t ≡ text "non_project") ⊎ (t ≡ text "unknown"))
is_scope-cases t h = elim (Bool-cases (text_eq t (text "project"))) [
  | inl e ↦ inl ((text_eq_iff t (text "project")).0 e)
  | inr e ↦ elim (Bool-cases (text_eq t (text "non_project"))) [
    | inl f ↦ inr (inl ((text_eq_iff t (text "non_project")).0 f))
    | inr f ↦ inr (inr ((text_eq_iff t (text "unknown")).0 (rw (e, f) at h)))
  ]
]

bounded-length : (max : ℕ) (t : Text) → is_some (bounded false max t) ≡ true → length t ≤ max
unfolding bounded
bounded-length max t h = ground arith

absent_none : (o : Option Value) → o ≡ none → not (is_some o) ≡ true
absent_none o h = rw h refl

validated :
    (valid_string : Text → Bool) (s : FactSubject)
    → validate_subject valid_string s ≡ true
    → (valid_string s.context ≡ true) × (is_scope s.scope ≡ true) × (length s.context ≤ 2048)
unfolding validate_subject
validated valid_string s h =
    (ground arith, ground arith, bounded-length 2048 s.context (ground arith))

-- The subject that subjectArguments accepts is the one that the arguments declare: at least one of
-- them is given, the scope is the text given or else unknown, and is one of the three scopes, and the
-- context is the text given, valid and at most 2048 bytes long.
pub subject_arguments-IsDeclared :
    (valid_string : Text → Bool) (args : Fields) (s : FactSubject)
    → subject_arguments valid_string args ≡ some (some s)
    → IsDeclared valid_string args s
unfolding subject_arguments
subject_arguments-IsDeclared valid_string args s h =
    let p = get "subject_scope" args in
    let q = get "subject_context" args in
    elim (Bool-cases (not (is_some p) && not (is_some q))) [
      | inl e ↦ let k = rw (e, subject_arguments) at h in cc
      | inr e ↦ elim (Bool-cases (is_string_or_absent p && is_string_or_absent q)) [
        | inr f ↦ let k = rw (e, f, subject_arguments) at h in cc
        | inl f ↦ elim (Bool-cases (validate_subject valid_string declared)) [
          | inr v ↦ let k = rw (e, f, v, subject_arguments) at h in cc
          | inl v ↦
              subst (IsDeclared valid_string args)
                (some_inj (some_inj (rw (e, f, v, subject_arguments) at h))) (accepted e f v)
        ]
      ]
    ]
  where
    declared : FactSubject
    declared = record {
      scope = or_unknown (str_param (get "subject_scope" args));
      context = str_param (get "subject_context" args);
      source_kind = text "client_declared";
    }

    accepted :
        (not (is_some (get "subject_scope" args)) && not (is_some (get "subject_context" args)))
          ≡ false
        → (is_string_or_absent (get "subject_scope" args)
            && is_string_or_absent (get "subject_context" args))
          ≡ true
        → validate_subject valid_string declared ≡ true
        → IsDeclared valid_string args declared
    accepted e f v =
        let (valid, scope, bound) = validated valid_string declared v in
        record {
          is_given = λ (a, b).
              let x = absent_none (get "subject_scope" args) a in
              let y = absent_none (get "subject_context" args) b in ground arith;
          scope_text = str_param (get "subject_scope" args);
          scope_given = str_param-HoldsText (get "subject_scope" args) (ground arith);
          scope_stands = or_unknown-StandsFor (str_param (get "subject_scope" args));
          scope_known = is_scope-cases declared.scope scope;
          context_given = str_param-HoldsText (get "subject_context" args) (ground arith);
          context_valid = valid;
          context_bounded = bound;
          by_client = refl;
        }
