-- ===== src/Examples/Groups.antt =====
-- Runs of a grouping manifest against a store in memory.
use personal_memory.Go.Json.{field, end, str, strs, set_all, Fields, get}
use personal_memory.Grouping.Run.{
  ambiguous, updated, already_applied, locked, decoded, no_file, GroupingStore, Journal,
  apply_change, apply_changes, dispatch, is_open, recheck, set_outcome, status_at, run,
}
use personal_memory.Maintenance.Service.Reliable.{reply_of}
use personal_memory.Prelude.{
  Bool-cases, Option, [], false, if◌then◌else◌, inl, inr, none, refl, some, true, ◌∷◌, ◌≡◌, ◌⊎◌,
  sym,
}
use personal_memory.Grouping.Manifest.{Group, GroupingManifest, validate_manifest}
use personal_memory.Grouping.Run.Laws.{IsJournalled, IsKept, outcomes_found, run-IsKept}
use personal_memory.Go.Text.{Text, text, text_eq, trim_space}
use personal_memory.Grouping.Run.Done.{run-AreDone}
use personal_memory.Go.Text.Laws.{text_eq_iff}

-- The payloads of the facts, and the journal that was saved last
record Shelf : Type 0 where
  payload : Text → Option Fields
  kept : Journal

abbrev updated_payload : Fields → Option Fields → Option Fields
updated_payload new none = none
updated_payload new (some p) = some (set_all new p)

abbrev shelf_store : GroupingStore
shelf_store = record {
  State = Shelf;
  get_point = λ id w. (reply_of id (w.payload id), w);
  set_payload = λ id new w. (
    true,
    record w {
      payload = λ j. if text_eq id j then updated_payload new (w.payload j) else w.payload j;
    },
  );
  is_cancelled = λ w. false;
  save = λ j w. (true, record w { kept = j });
}

abbrev shelf_journalled : IsJournalled shelf_store
shelf_journalled = record { saved = λ w. w.kept; save_kept = λ j w h. refl }

abbrev tagged : Text → Fields
tagged t = field "text" (str (text "t")) (field "tags" (strs (t ∷ [])) end)

abbrev some_hash : Text
some_hash = text "0123456789abcdef0123456789abcdef0123456789abcdef0123456789abcdef"

abbrev group_of : Text → Group
group_of t = record { tags = some (t ∷ []); primary_tag = []; audit_ref = [] }

abbrev one_id : Text
one_id = text "17"

abbrev retag : GroupingManifest
retag = record {
  schema_version = 1;
  id = text "m";
  catalog_hash = some_hash;
  changes =
      record {
        point_id = one_id;
        fingerprint = some_hash;
        before = group_of (text "a");
        after = group_of (text "b");
      }
      ∷ [];
  is_approved = true;
}

abbrev constant_hash : GroupingManifest → Text
constant_hash m = some_hash

abbrev constant_digest : Fields → Text
constant_digest p = some_hash

abbrev no_journal : Journal
no_journal = record { schema_version = 0; manifest_hash = []; operation = []; outcomes = [] }

abbrev one_fact : Shelf
one_fact = record {
  payload = λ id. if text_eq id one_id then some (tagged (text "a")) else none;
  kept = no_journal;
}

abbrev open_journal : Journal
open_journal = record {
  schema_version = 1;
  manifest_hash = some_hash;
  operation = text "apply";
  outcomes = record { point_id = one_id; status = ambiguous } ∷ [];
}

retag_runs :
    (run shelf_store constant_digest constant_hash retag
      (text "/j")
      true
      false
      (locked no_file)
      one_fact).0
    ≡ none
unfolding run apply_change apply_changes recheck dispatch set_outcome status_at validate_manifest
    text_eq trim_space get set_all
retag_runs = refl

run-AreDone_example :
    (status_at one_id
        (run shelf_store constant_digest constant_hash retag
          (text "/j")
          true
          false
          (locked no_file)
          one_fact).1.outcomes
      ≡ some updated)
    ⊎ (status_at one_id
          (run shelf_store constant_digest constant_hash retag
            (text "/j")
            true
            false
            (locked no_file)
            one_fact).1.outcomes
        ≡ some already_applied)
run-AreDone_example =
    (run-AreDone shelf_store constant_digest constant_hash retag (text "/j") true false
      (locked no_file) one_fact retag_runs).0

-- The fact whose dispatch was open is as it was.
abbrev IsUntouched : Shelf → Type 0
IsUntouched w = w.payload one_id ≡ some (tagged (text "a"))

write_keeps_open :
    (id : Text) (new : Fields) (w : Shelf)
    → is_open (status_at id open_journal.outcomes) ≡ false
    → IsUntouched w
    → (if text_eq id one_id then updated_payload new (w.payload one_id) else w.payload one_id)
      ≡ some (tagged (text "a"))
unfolding status_at
write_keeps_open id new w n h = elim (Bool-cases (text_eq id one_id)) [
  | inl e ↦
      let q : text_eq one_id id ≡ true =
        (text_eq_iff one_id id).1 (sym ((text_eq_iff id one_id).0 e)) in
      let c = rw q at n in cc
  | inr e ↦ rw e h
]

open_kept :
    IsKept shelf_store shelf_journalled (outcomes_found (locked (decoded open_journal))) IsUntouched
open_kept = record {
  get_keeps = λ id w h. h;
  save_keeps = λ j w h. h;
  write_keeps = λ id new w listed n h. write_keeps_open id new w n h;
}

one_fact-IsUntouched : IsUntouched one_fact
unfolding text_eq
one_fact-IsUntouched = refl

run-IsKept_example :
    IsUntouched
      (run shelf_store constant_digest constant_hash retag
        (text "/j")
        true
        false
        (locked (decoded open_journal))
        one_fact).2
run-IsKept_example =
    run-IsKept shelf_store constant_digest shelf_journalled (locked (decoded open_journal))
      IsUntouched open_kept constant_hash retag (text "/j") true false one_fact one_fact-IsUntouched
