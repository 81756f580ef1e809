-- ===== src/Redaction/Alike.antt =====
-- redaction.py: values that differ in what is hidden only.
use deepagent_shell.Prelude.{ℕ, suc, String, true, List, Option, none, some, ◌≡◌, refl, ap}
use deepagent_shell.Redaction.Values.{Value, Items, Entries, Public, PublicEntries, set_entry}
use deepagent_shell.Redaction.{
  is_hidden, Patterns, redact, redact_at, redact_items, redact_entries, within, exception_payload,
  redacted,
}

-- Two values that differ at most in what stands under a hidden key and in bytes, exceptions, the
-- reasons of failures and opaque objects.
mutual
  pub data Alike {N O : Type 0} (lower : String → String) : Value N O → Value N O → Type 0 where
    same : (v : Value N O) → Alike lower v v
    bytes : (a b : O) → Alike lower (Value.bytes a) (Value.bytes b)
    exception : (a b : O) → Alike lower (Value.exception a) (Value.exception b)
    exception_from :
        (a b : O) {v w : Value N O}
        → Alike lower v w
        → Alike lower (Value.exception_from a v) (Value.exception_from b w)
    model : {v w : Value N O} → Alike lower v w → Alike lower (Value.model v) (Value.model w)
    model_failing : (a b : O) → Alike lower (Value.model_failing a) (Value.model_failing b)
    dataclass :
        {e f : Entries N O}
        → AlikeEntries lower e f
        → Alike lower (Value.dataclass e) (Value.dataclass f)
    dict : {e f : Entries N O} → AlikeEntries lower e f → Alike lower (Value.dict e) (Value.dict f)
    list : {i j : Items N O} → AlikeItems lower i j → Alike lower (Value.list i) (Value.list j)
    set : (n : ℕ) (a b : O) → Alike lower (Value.set n a) (Value.set n b)
    opaque : (a b : O) → Alike lower (Value.opaque a) (Value.opaque b)

  pub data AlikeItems {N O : Type 0} (lower : String → String)
      : Items N O → Items N O → Type 0 where
    nil : AlikeItems lower Items.nil Items.nil
    cons :
        {v w : Value N O} {i j : Items N O}
        → Alike lower v w
        → AlikeItems lower i j
        → AlikeItems lower (Items.cons v i) (Items.cons w j)

  pub data AlikeEntries {N O : Type 0} (lower : String → String)
      : Entries N O → Entries N O → Type 0 where
    end : AlikeEntries lower Entries.end Entries.end
    hidden :
        {key : String} (v w : Value N O) {e f : Entries N O}
        → is_hidden lower key ≡ true
        → AlikeEntries lower e f
        → AlikeEntries lower (Entries.entry key v e) (Entries.entry key w f)
    entry :
        {key : String} {v w : Value N O} {e f : Entries N O}
        → Alike lower v w
        → AlikeEntries lower e f
        → AlikeEntries lower (Entries.entry key v e) (Entries.entry key w f)
    raising :
        {key : String} {e f : Entries N O}
        → AlikeEntries lower e f
        → AlikeEntries lower (Entries.raising key e) (Entries.raising key f)
    unnamed :
        (a b : O) {e f : Entries N O}
        → AlikeEntries lower e f
        → AlikeEntries lower (Entries.unnamed a e) (Entries.unnamed b f)

module _ {N O : Type 0} (lower : String → String) (patterns : Patterns) (known : List String) where
  mutual
    unfolding redact_at redact_items redact_entries

    redact_at-Alike :
        (depth : ℕ) (last : Option String) {v w : Value N O}
        → Alike lower v w
        → redact_at lower patterns known depth last v ≡ redact_at lower patterns known depth last w
    redact_at-Alike depth last (same v) = refl
    redact_at-Alike depth last (bytes a b) = refl
    redact_at-Alike depth last (exception a b) = refl
    redact_at-Alike depth last (exception_from a b h) =
        ap (λ c. within depth (exception_payload c)) (redact_at-Alike (suc depth) (some "cause") h)
    redact_at-Alike depth last (model h) =
        ap (λ c. within depth c) (redact_at-Alike (suc depth) last h)
    redact_at-Alike depth last (model_failing a b) = refl
    redact_at-Alike depth last (dataclass h) =
        ap (λ c. within depth (within (suc depth) (Public.dict c)))
          (redact_entries-Alike (suc (suc depth)) PublicEntries.end h)
    redact_at-Alike depth last (dict h) =
        ap (λ c. within depth (Public.dict c))
          (redact_entries-Alike (suc depth) PublicEntries.end h)
    redact_at-Alike depth last (list h) =
        ap (λ c. within depth (Public.list c)) (redact_items-Alike (suc depth) h)
    redact_at-Alike depth last (set n a b) = refl
    redact_at-Alike depth last (opaque a b) = refl

    redact_items-Alike :
        (depth : ℕ) {i j : Items N O}
        → AlikeItems lower i j
        → redact_items lower patterns known depth i ≡ redact_items lower patterns known depth j
    redact_items-Alike depth nil = refl
    redact_items-Alike depth (cons h k) =
        rw (redact_at-Alike depth none h, redact_items-Alike depth k) (refl)

    redact_entries-Alike :
        (depth : ℕ) (result : PublicEntries N) {e f : Entries N O}
        → AlikeEntries lower e f
        → redact_entries lower patterns known depth e result
          ≡ redact_entries lower patterns known depth f result
    redact_entries-Alike depth result end = refl
    redact_entries-Alike depth result (hidden {key} v w h k) =
        rw h (redact_entries-Alike depth (set_entry key (Public.text redacted) result) k)
    redact_entries-Alike depth result (entry {key} {v} {w} h k) =
        rw (redact_at-Alike depth (some (lower key)) h) (redact_entries-Alike depth _ k)
    redact_entries-Alike depth result (raising k) = redact_entries-Alike depth _ k
    redact_entries-Alike depth result (unnamed a b k) = redact_entries-Alike depth _ k

  -- Two values that differ at most in what stands under a hidden key, in bytes, in the content of exceptions
  -- and failures, and in objects that the policy does not know, are redacted to the same value.
  pub redact-Alike :
      (v w : Value N O)
      → Alike lower v w
      → redact lower patterns known v ≡ redact lower patterns known w
  unfolding redact
  redact-Alike v w h = redact_at-Alike 0 none h
