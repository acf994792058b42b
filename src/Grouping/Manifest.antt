-- ===== src/Grouping/Manifest.antt =====
-- internal/factgrouping/grouping.go: a manifest of changes, its Validate, and GroupFrom.
use personal_memory.Prelude.{
  ◌>>=◌, ◌&&◌, ◌==◌, Bool, List, Option, [], false, if◌then◌else◌, leb, length, ltb, none, not,
  some, true, ◌||◌, ℕ, ◌∷◌, suc, zero,
}
use personal_memory.Go.Json.{arr, cons, nil, str, strs, Fields, Items, Value, get, delete}
use personal_memory.Go.Text.{Text, is_empty, text_eq, trim_space}
use personal_memory.Lifecycle.Model.{contains}
use personal_memory.Maintenance.Classify.{string_value}

-- The tags of a nil slice are none.
pub record Group : Type 0 where
  pub tags : Option (List Text)
  pub primary_tag : Text
  pub audit_ref : Text

pub record Change : Type 0 where
  pub point_id : Text
  pub fingerprint : Text
  pub before : Group
  pub after : Group

pub record GroupingManifest : Type 0 where
  pub schema_version : ℕ
  pub id : Text
  pub catalog_hash : Text
  pub changes : List Change
  pub is_approved : Bool

pub data GroupingFault : Type 0 where
  manifest_invalid change_invalid grouping_too_large tag_invalid primary_missing : GroupingFault

abbrev is_decimal : ℕ → Bool
is_decimal c = leb b'0' c && leb c b'9'

abbrev is_lower_hex : ℕ → Bool
is_lower_hex c = is_decimal c || (leb b'a' c && leb c b'f')

abbrev is_hex : ℕ → Bool
is_hex c = is_lower_hex c || (leb b'A' c && leb c b'F')

unfoldable pub all_bytes : (ℕ → Bool) → Text → Bool
all_bytes test [] = true
all_bytes test (c ∷ t) = test c && all_bytes test t

-- What follows the dash after `n` hexadecimal digits
unfoldable pub after_hex : ℕ → Text → Option Text
after_hex n [] = none
after_hex zero (c ∷ t) = if c == b'-' then some t else none
after_hex (suc n) (c ∷ t) = let rest = after_hex n t in if is_hex c then rest else none

-- validHash
unfoldable pub is_hash : Text → Bool
unfolding all_bytes
is_hash t = (length t == 64) && all_bytes is_lower_hex t

abbrev is_uuid_end : Option Text → Bool
is_uuid_end none = false
is_uuid_end (some t) = (length t == 12) && all_bytes is_hex t

-- validID
unfoldable pub is_grouping_id : Text → Bool
unfolding all_bytes after_hex
is_grouping_id t =
    (not (is_empty t) && all_bytes is_decimal t)
    || is_uuid_end (do a ← after_hex 8 t; b ← after_hex 4 a; c ← after_hex 4 b; after_hex 4 c)

-- The elements of the slice
abbrev pub tag_list : Option (List Text) → List Text
tag_list none = []
tag_list (some ts) = ts

-- The loop over the tags of a group; `seen` holds the tags before this one.
unfoldable pub tags_valid : List Text → List Text → Bool
unfolding contains
tags_valid seen [] = true
tags_valid seen (t ∷ ts) =
    let rest = tags_valid (t ∷ seen) ts in
    if is_empty (trim_space t) || (ltb 255 (length t) || contains t seen) then false else rest

unfoldable pub has_primary : Text → List Text → Bool
unfolding contains
has_primary primary tags = is_empty primary || contains primary tags

unfoldable pub group_fault : Group → Option GroupingFault
unfolding tags_valid has_primary
group_fault g =
    let tags = tag_list g.tags in
    if ltb 100 (length tags) || ltb 128 (length g.audit_ref)
    then some grouping_too_large
    else if not (tags_valid [] tags)
    then some tag_invalid
    else if not (has_primary g.primary_tag tags)
    then some primary_missing
    else none

abbrev or_next : Option GroupingFault → Option GroupingFault → Option GroupingFault
or_next none next = next
or_next (some e) next = some e

-- The loop over the changes; `seen` holds the ids before this one.
unfoldable pub changes_fault : List Text → List Change → Option GroupingFault
unfolding is_grouping_id is_hash group_fault contains
changes_fault seen [] = none
changes_fault seen (c ∷ cs) =
    let rest = changes_fault (c.point_id ∷ seen) cs in
    if not (is_grouping_id c.point_id) || (contains c.point_id seen || not (is_hash c.fingerprint))
    then some change_invalid
    else or_next (group_fault c.before) (or_next (group_fault c.after) rest)

-- Validate
unfoldable pub validate_manifest : GroupingManifest → Option GroupingFault
unfolding is_hash changes_fault
validate_manifest m =
    if (not (m.schema_version == 1) || not m.is_approved)
      || ((is_empty m.id || ltb 128 (length m.id))
          || (not (is_hash m.catalog_hash)
              || ((length m.changes == 0) || ltb 100 (length m.changes))))
    then some manifest_invalid
    else changes_fault [] m.changes

-- The strings among the items
unfoldable pub texts_of : Items → List Text
texts_of nil = []
texts_of (cons (str t) items) = t ∷ texts_of items
texts_of (cons _ items) = texts_of items

abbrev pub tags_of : Option Value → List Text
tags_of (some (strs ts)) = ts
tags_of (some (arr items)) = texts_of items
tags_of _ = []

-- GroupFrom; the slice is never nil.
unfoldable pub group_from : Fields → Group
unfolding texts_of
group_from p = record {
  tags = some (tags_of (get "tags" p));
  primary_tag = string_value (get "primary_tag" p);
  audit_ref = string_value (get "ai_grouping_ref" p);
}

-- The copy that Fingerprint digests
unfoldable pub without_grouping : Fields → Fields
without_grouping p = delete "tags" (
    delete "primary_tag"
      (delete "ai_grouping_ref" (delete "recall_count" (delete "last_recalled_at" p))))

unfoldable pub texts_eq : List Text → List Text → Bool
texts_eq [] [] = true
texts_eq (a ∷ s) (b ∷ t) = text_eq a b && texts_eq s t
texts_eq _ _ = false

abbrev same_tags : Option (List Text) → Option (List Text) → Bool
same_tags none none = true
same_tags (some a) (some b) = texts_eq a b
same_tags _ _ = false

-- reflect.DeepEqual, which tells a nil slice from an empty one
unfoldable pub same_group : Group → Group → Bool
unfolding texts_eq
same_group g h =
    same_tags g.tags h.tags
    && (text_eq g.primary_tag h.primary_tag && text_eq g.audit_ref h.audit_ref)
