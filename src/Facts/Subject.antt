-- ===== src/Facts/Subject.antt =====
-- internal/memory/subject.go: the declared subject of a fact, and NormalizeNamespace of
-- internal/memory/id.go, with strParam of internal/memory/server.go. An error is `none`;
-- utf8.ValidString is an argument.
pub mod Laws
use personal_memory.Go.Json.{str, Fields, Value, get}
use personal_memory.Prelude.{
  ◌&&◌, Bool, Option, String, [], false, if◌then◌else◌, none, not, some, true, ◌||◌, ◌∷◌, ◌≡◌,
  Bool-cases, inl, inr, refl, subst, sym, some_inj,
}
use personal_memory.Go.Text.{Text, is_empty, text, text_eq, trim_space}
use personal_memory.Lifecycle.Write.{bounded}
use personal_memory.Lifecycle.Model.{is_some}
use personal_memory.Go.Text.Laws.{text_eq_iff, trim_space_idem}

-- NormalizeNamespace
unfoldable pub normalize_namespace : Text → Text
normalize_namespace t = if is_empty (trim_space t) then text "default" else trim_space t

pub record FactSubject : Type 0 where
  pub scope : Text
  pub context : Text
  pub source_kind : Text

-- strParam
unfoldable pub str_param : Option Value → Text
str_param (some (str t)) = t
str_param _ = []

abbrev pub is_string_or_absent : Option Value → Bool
is_string_or_absent none = true
is_string_or_absent (some (str t)) = true
is_string_or_absent (some _) = false

abbrev pub is_scope : Text → Bool
is_scope t =
    text_eq t (text "project") || (text_eq t (text "non_project") || text_eq t (text "unknown"))

abbrev pub or_unknown : Text → Text
or_unknown [] = text "unknown"
or_unknown (c ∷ t) = c ∷ t

module _ (valid_string : Text → Bool) where
  -- validateSubject: whether its error is nil
  unfoldable pub validate_subject : FactSubject → Bool
  unfolding bounded
  validate_subject s =
      valid_string s.context
      && (is_scope s.scope
          && (text_eq s.source_kind (text "client_declared")
              && is_some (bounded false 2048 s.context)))

  abbrev pub checked_subject : FactSubject → Option (Option FactSubject)
  checked_subject s = if validate_subject s then some (some s) else none

  -- subjectArguments; `some none` is a fact without a subject.
  unfoldable pub subject_arguments : Fields → Option (Option FactSubject)
  subject_arguments args =
      let s : FactSubject = record {
        scope = or_unknown (str_param (get "subject_scope" args));
        context = str_param (get "subject_context" args);
        source_kind = text "client_declared";
      } in
      if not (is_some (get "subject_scope" args)) && not (is_some (get "subject_context" args))
      then some none
      else if not (
          is_string_or_absent (get "subject_scope" args)
          && is_string_or_absent (get "subject_context" args))
      then none
      else checked_subject s

abbrev pub is_named : Text → String → Bool
is_named t s = text_eq t (text s)

abbrev decision_of : Text → FactSubject → Text
decision_of namespace s =
    if (is_named s.scope "non_project" && is_named namespace "projects")
      || (is_named s.scope "project"
          && (not (is_named namespace "projects") && not (is_named namespace "work")))
    then text "namespace_scope_mismatch"
    else if is_named s.scope "non_project"
        || (is_named namespace "personal"
            || (is_named namespace "tech" || is_named namespace "job-search"))
    then text "non_project"
    else []

-- subjectDecision
unfoldable pub subject_decision : Text → Option FactSubject → Text
subject_decision namespace none = []
subject_decision namespace (some s) = decision_of namespace s
