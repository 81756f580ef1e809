-- ===== src/Redaction/Values.antt =====
-- server/src/agent_shell/redaction.py: the values that are redacted and what comes out. A value is the tree of
-- what Python reads from it. `N` is the type of booleans and numbers, `O` that of everything whose content
-- the policy does not look at.
use deepagent_shell.Prelude.{String, ℕ, suc, ltb, if◌then◌else◌, ◌==◌, string_eq}

mutual
  pub data Value (N O : Type 0) : Type 0 where
    null : Value N O
    number : N → Value N O
    text : String → Value N O
    bytes : O → Value N O
    -- An exception, without or with a cause or context.
    exception : O → Value N O
    exception_from : O → Value N O → Value N O
    -- An object that is met again inside itself.
    cycle : Value N O
    -- A pydantic model with what `model_dump` gives, or whose dump raises.
    model : Value N O → Value N O
    model_failing : O → Value N O
    dataclass : Entries N O → Value N O
    dict : Entries N O → Value N O
    -- A list or a tuple.
    list : Items N O → Value N O
    set : ℕ → O → Value N O
    opaque : O → Value N O

  pub data Items (N O : Type 0) : Type 0 where
    nil : Items N O
    cons : Value N O → Items N O → Items N O

  -- The fields of a dataclass or the entries of a dict. A key that is no text, and an attribute that
  -- raises, have no value here.
  pub data Entries (N O : Type 0) : Type 0 where
    end : Entries N O
    entry : String → Value N O → Entries N O → Entries N O
    raising : String → Entries N O → Entries N O
    unnamed : O → Entries N O → Entries N O

-- What `redact` returns.
mutual
  pub data Public (N : Type 0) : Type 0 where
    null : Public N
    number : N → Public N
    text : String → Public N
    dict : PublicEntries N → Public N
    list : PublicItems N → Public N

  pub data PublicItems (N : Type 0) : Type 0 where
    nil : PublicItems N
    cons : Public N → PublicItems N → PublicItems N

  pub data PublicEntries (N : Type 0) : Type 0 where
    end : PublicEntries N
    entry : String → Public N → PublicEntries N → PublicEntries N

-- `result[key] = value`
unfoldable pub set_entry : {N : Type 0} → String → Public N → PublicEntries N → PublicEntries N
set_entry key value PublicEntries.end = PublicEntries.entry key value PublicEntries.end
set_entry key value (PublicEntries.entry here old rest) =
    let later = set_entry key value rest in
    if here == key then PublicEntries.entry here value rest else PublicEntries.entry here old later

abbrev pub max : ℕ → ℕ → ℕ
max a b = if ltb a b then b else a

-- How deep the collections of a value are nested.
unfoldable mutual
  pub nesting : {N : Type 0} → Public N → ℕ
  nesting Public.null = 0
  nesting (Public.number n) = 0
  nesting (Public.text t) = 0
  nesting (Public.dict entries) = suc (nesting_entries entries)
  nesting (Public.list items) = suc (nesting_items items)

  pub nesting_items : {N : Type 0} → PublicItems N → ℕ
  nesting_items PublicItems.nil = 0
  nesting_items (PublicItems.cons value items) = max (nesting value) (nesting_items items)

  pub nesting_entries : {N : Type 0} → PublicEntries N → ℕ
  nesting_entries PublicEntries.end = 0
  nesting_entries (PublicEntries.entry key value entries) =
      max (nesting value) (nesting_entries entries)
