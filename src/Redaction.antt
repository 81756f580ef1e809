-- ===== src/Redaction.antt =====
-- server/src/agent_shell/redaction.py: `RedactionPolicy`. `lower` is `str.lower`, and `Patterns` are the
-- compiled expressions and the parser of URLs that `_redact_string` calls. The field `known` has the secrets
-- of the policy, the longest first.
mod Values
mod Known
mod Alike
mod Nesting
mod Samples
use deepagent_shell.Prelude.{
  ℕ, zero, suc, String, Bool, true, false, ◌||◌, ◌&&◌, List, [], ◌∷◌, Option, none, some, Dict,
  lookup, ltb, string_eq, option_eq, if◌then◌else◌, ◌==◌, ◌+◌,
}
use deepagent_shell.Redaction.Values.{
  Value, Items, Entries, Public, PublicItems, PublicEntries, set_entry,
}
use deepagent_shell.Redaction.Known.{replace}

abbrev pub redacted : String
redacted = "[REDACTED]"

abbrev pub unavailable : String
unavailable = "[UNAVAILABLE]"

abbrev pub local_path : String
local_path = "[LOCAL_PATH]"

abbrev pub max_redaction_depth : ℕ
max_redaction_depth = 12

pub data FieldKind : Type 0 where
  secret content path : FieldKind

-- `SENSITIVE_FIELD_REGISTRY`
abbrev pub sensitive_field_registry : Dict String FieldKind
sensitive_field_registry =
    ("api_key", FieldKind.secret)
    ∷ ("authorization", FieldKind.secret)
    ∷ ("access_token", FieldKind.secret)
    ∷ ("refresh_token", FieldKind.secret)
    ∷ ("bearer_token", FieldKind.secret)
    ∷ ("management_token", FieldKind.secret)
    ∷ ("client_secret", FieldKind.secret)
    ∷ ("secret", FieldKind.secret)
    ∷ ("secret_value", FieldKind.secret)
    ∷ ("password", FieldKind.secret)
    ∷ ("messages", FieldKind.content)
    ∷ ("upstream_messages", FieldKind.content)
    ∷ ("tool_arguments", FieldKind.content)
    ∷ ("tool_args", FieldKind.content)
    ∷ ("provider_response", FieldKind.content)
    ∷ ("raw_response", FieldKind.content)
    ∷ ("response_body", FieldKind.content)
    ∷ ("traceback", FieldKind.content)
    ∷ ("stacktrace", FieldKind.content)
    ∷ ("source_code", FieldKind.content)
    ∷ ("local_path", FieldKind.path)
    ∷ ("source_path", FieldKind.path)
    ∷ ("database_path", FieldKind.path)
    ∷ ("runtime_dir", FieldKind.path)
    ∷ []

abbrev pub hides : Option FieldKind → Bool
hides (some FieldKind.secret) = true
hides (some FieldKind.content) = true
hides _ = false

abbrev pub names_path : Option FieldKind → Bool
names_path (some FieldKind.path) = true
names_path _ = false

-- A key whose value is never shown.
unfoldable pub is_hidden : (String → String) → String → Bool
unfolding lookup
is_hidden lower key = hides (lookup (lower key) sensitive_field_registry)

-- `_WINDOWS_PATH_PATTERN.match` and the four substitutions, and `_remove_url_userinfo`.
pub record Patterns : Type 0 where
  pub starts_windows_path : String → Bool
  pub remove_url_userinfo : String → String
  pub hide_bearer : String → String
  pub hide_api_keys : String → String
  pub hide_windows_paths : String → String
  pub hide_posix_paths : String → String

abbrev pub starts_with_slash : String → Bool
starts_with_slash String.[] = false
starts_with_slash (String.◌∷◌ c s) = String.◌∷◌ c String.[] == "/"

unfoldable pub replace_known : List String → String → String
unfolding replace
replace_known [] value = value
replace_known (known ∷ rest) value = replace_known rest (replace known redacted value)

-- `_redact_string`
unfoldable pub redact_string : Patterns → List String → Bool → String → String
unfolding replace_known
redact_string patterns known path_sensitive value =
    if path_sensitive && (starts_with_slash value || patterns.starts_windows_path value)
    then local_path
    else replace_known known (
        patterns.hide_posix_paths (
          patterns.hide_windows_paths
            (patterns.hide_api_keys (patterns.hide_bearer (patterns.remove_url_userinfo value)))))

unfoldable pub unavailable_items : {N : Type 0} → ℕ → PublicItems N
unavailable_items zero = PublicItems.nil
unavailable_items (suc n) = PublicItems.cons (Public.text unavailable) (unavailable_items n)

-- The test on the depth, which stands before all others.
abbrev pub within : {N : Type 0} → ℕ → Public N → Public N
within depth shown = if ltb max_redaction_depth depth then Public.text unavailable else shown

abbrev pub exception_payload : {N : Type 0} → Public N → Public N
exception_payload cause = Public.dict (
    PublicEntries.entry "type" (Public.text "exception") (
      PublicEntries.entry "message" (Public.text "An internal operation failed.")
        (PublicEntries.entry "cause" cause PublicEntries.end)))

abbrev pub is_path_key : Option String → Bool
is_path_key none = false
is_path_key (some key) = names_path (lookup key sensitive_field_registry)

abbrev pub shown_text : {N : Type 0} → Patterns → List String → Option String → String → Public N
shown_text patterns known last value =
    Public.text (redact_string patterns known (is_path_key last) value)

-- The child of a dict under a key.
abbrev pub under_key : {N : Type 0} → (String → String) → String → Public N → Public N
under_key lower key shown = if is_hidden lower key then Public.text redacted else shown

module _ {N O : Type 0} (lower : String → String) (patterns : Patterns) (known : List String) where
  -- `_redact`. `last` is the last part of the path; the index of an item names no field.
  unfoldable mutual
    pub redact_at : ℕ → Option String → Value N O → Public N
    redact_at depth last Value.null = within depth Public.null
    redact_at depth last (Value.number n) = within depth (Public.number n)
    redact_at depth last (Value.text t) = within depth (shown_text patterns known last t)
    redact_at depth last (Value.bytes o) = within depth (Public.text redacted)
    redact_at depth last (Value.exception o) = within depth (exception_payload Public.null)
    redact_at depth last (Value.exception_from o cause) =
        within depth (exception_payload (redact_at (suc depth) (some "cause") cause))
    redact_at depth last Value.cycle = within depth (Public.text unavailable)
    redact_at depth last (Value.model dumped) = within depth (redact_at (suc depth) last dumped)
    redact_at depth last (Value.model_failing o) = within depth (Public.text unavailable)
    redact_at depth last (Value.dataclass fields) = within depth (
        within (suc depth)
          (Public.dict (redact_entries (suc (suc depth)) fields PublicEntries.end)))
    redact_at depth last (Value.dict entries) =
        within depth (Public.dict (redact_entries (suc depth) entries PublicEntries.end))
    redact_at depth last (Value.list items) =
        within depth (Public.list (redact_items (suc depth) items))
    redact_at depth last (Value.set n o) = within depth (Public.list (unavailable_items n))
    redact_at depth last (Value.opaque o) = within depth (Public.text unavailable)

    pub redact_items : ℕ → Items N O → PublicItems N
    redact_items depth Items.nil = PublicItems.nil
    redact_items depth (Items.cons value items) =
        PublicItems.cons (redact_at depth none value) (redact_items depth items)

    pub redact_entries : ℕ → Entries N O → PublicEntries N → PublicEntries N
    redact_entries depth Entries.end result = result
    redact_entries depth (Entries.entry key value entries) result =
        redact_entries depth entries
          (set_entry key (under_key lower key (redact_at depth (some (lower key)) value)) result)
    redact_entries depth (Entries.raising key entries) result = redact_entries depth entries (
        set_entry key
          (under_key lower key
            (within depth (shown_text patterns known (some (lower key)) unavailable)))
          result)
    redact_entries depth (Entries.unnamed o entries) result =
        redact_entries depth entries (set_entry unavailable (Public.text unavailable) result)

  unfoldable pub redact : Value N O → Public N
  unfolding redact_at
  redact value = redact_at 0 none value
