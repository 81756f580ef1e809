-- ===== src/Redaction/Samples.antt =====
-- A payload with a password, redacted.
use deepagent_shell.Prelude.{
  ℕ, ◌≤◌, String, true, [], ◌∷◌, ◌≡◌, refl, lookup, string_eq, false, size, text_append,
}
use deepagent_shell.Redaction.Values.{Value, Entries, Public, PublicEntries, nesting, set_entry}
use deepagent_shell.Redaction.Known.{replace}
use deepagent_shell.Redaction.{Patterns, redact, is_hidden, redact_string, replace_known}
use deepagent_shell.Redaction.Alike.{dict, hidden, entry, same, end, redact-Alike}
use deepagent_shell.Redaction.Nesting.{redact-nesting}

-- Expressions that find nothing.
abbrev no_patterns : Patterns
no_patterns = record {
  starts_windows_path = λ _. false;
  remove_url_userinfo = λ t. t;
  hide_bearer = λ t. t;
  hide_api_keys = λ t. t;
  hide_windows_paths = λ t. t;
  hide_posix_paths = λ t. t;
}

abbrev payload : String → Value ℕ ℕ
payload password = Value.dict (
    Entries.entry "password" (Value.text password) (
      Entries.entry "runtime_dir" (Value.text "/srv/run")
        (Entries.entry "note" (Value.text "the key is k3y.") Entries.end)))

abbrev public_payload : Public ℕ
public_payload = Public.dict (
    PublicEntries.entry "password" (Public.text "[REDACTED]") (
      PublicEntries.entry "runtime_dir" (Public.text "[LOCAL_PATH]")
        (PublicEntries.entry "note" (Public.text "the key is [REDACTED].") PublicEntries.end)))

redact_payload : redact (λ key. key) no_patterns ("k3y" ∷ []) (payload "1234") ≡ public_payload
unfolding redact is_hidden set_entry size text_append redact_string replace_known replace lookup
redact_payload = refl

password_is_hidden : is_hidden (λ key. key) "password" ≡ true
unfolding is_hidden
password_is_hidden = refl

redact-Alike_example :
    redact (λ key. key) no_patterns ("k3y" ∷ []) (payload "1234")
    ≡ redact (λ key. key) no_patterns ("k3y" ∷ []) (payload "5678")
redact-Alike_example =
    redact-Alike (λ key. key) no_patterns ("k3y" ∷ []) (payload "1234") (payload "5678")
      (dict (
        hidden (Value.text "1234") (Value.text "5678") password_is_hidden
          (entry (same (Value.text "/srv/run")) (entry (same (Value.text "the key is k3y.")) end))))

redact-nesting_example :
    nesting (redact (λ key. key) no_patterns ("k3y" ∷ []) (payload "1234")) ≤ 13
redact-nesting_example = redact-nesting (λ key. key) no_patterns ("k3y" ∷ []) (payload "1234")
