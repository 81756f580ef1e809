-- ===== src/Redaction/Known.antt =====
-- redaction.py: `str.replace` with a text that is not empty, as `_redact_string` calls it on each known secret.
use deepagent_shell.Prelude.{
  ℕ, zero, suc, ◌-◌, String, Bool, true, false, ◌==◌, ◌&&◌, string_eq, size, text_append,
}

abbrev starts_with : String → String → Bool
starts_with String.[] value = true
starts_with (String.◌∷◌ c old) String.[] = false
starts_with (String.◌∷◌ c old) (String.◌∷◌ d value) =
    String.◌∷◌ c String.[] == String.◌∷◌ d String.[] && starts_with old value

-- The first `skip` characters belong to an occurrence that is replaced already.
replace_from : String → String → ℕ → String → String
replace_from old new skip String.[] = String.[]
replace_from old new (suc skip) (String.◌∷◌ c value) = replace_from old new skip value
replace_from old new zero (String.◌∷◌ c value) = elim (starts_with old (String.◌∷◌ c value)) [
  | true ↦ text_append new (replace_from old new (size old - 1) value)
  | false ↦ String.◌∷◌ c (replace_from old new zero value)
]

-- `value.replace(old, new)`
unfoldable pub replace : String → String → String → String
unfolding replace_from
replace old new value = replace_from old new 0 value
