-- ===== src/Redaction/Nesting.antt =====
-- redaction.py: how deep a redacted value is nested.
use deepagent_shell.Prelude.{
  ℕ, zero, suc, ◌-◌, ◌≤◌, String, List, Option, none, some, arith, ltb, ◌==◌, string_eq, inl, inr,
  Bool-cases,
}
use deepagent_shell.Redaction.Values.{
  Value, Items, Entries, Public, PublicEntries, set_entry, nesting, nesting_items, nesting_entries,
  max,
}
use deepagent_shell.Redaction.{
  is_hidden, Patterns, redact, redact_at, redact_items, redact_entries, under_key, within,
  unavailable, unavailable_items, shown_text,
}

within-nesting :
    {N : Type 0} (depth : ℕ) (shown : Public N)
    → (depth ≤ 12 → nesting shown ≤ 13 - depth)
    → nesting (within depth shown) ≤ 13 - depth
unfolding nesting
within-nesting depth shown h = elim (Bool-cases (ltb 12 depth)) [
  | inl e ↦ rw e (omega arith)
  | inr e ↦ rw e (h (ground arith))
]

under_key-nesting :
    {N : Type 0} (lower : String → String) (key : String) (shown : Public N) (b : ℕ)
    → nesting shown ≤ b
    → nesting (under_key lower key shown) ≤ b
unfolding nesting
under_key-nesting lower key shown b h = elim (Bool-cases (is_hidden lower key)) [
  | inl e ↦ rw e (omega arith)
  | inr e ↦ rw e (h)
]

max-le : (a b c : ℕ) → a ≤ c → b ≤ c → max a b ≤ c
max-le a b c h k = ground arith

le-max : (a b c : ℕ) → max a b ≤ c → (a ≤ c) × (b ≤ c)
le-max a b c h = ground arith

set_entry-nesting :
    {N : Type 0} (key : String) (value : Public N) (result : PublicEntries N) (b : ℕ)
    → nesting value ≤ b
    → nesting_entries result ≤ b
    → nesting_entries (set_entry key value result) ≤ b
unfolding set_entry nesting nesting_entries
set_entry-nesting key value PublicEntries.end b h k = max-le (nesting value) 0 b h (omega arith)
set_entry-nesting key value (PublicEntries.entry here old rest) b h k =
    let parts = le-max (nesting old) (nesting_entries rest) b k in
    elim (Bool-cases (here == key)) [
      | inl e ↦ rw e (max-le (nesting value) (nesting_entries rest) b h parts.1)
      | inr e ↦ rw e (
          max-le (nesting old) (nesting_entries (set_entry key value rest)) b parts.0
            (set_entry-nesting key value rest b h parts.1))
    ]

unavailable_items-nesting : (N : Type 0) (n : ℕ) → nesting_items {N = N} (unavailable_items n) ≤ 0
unfolding unavailable_items nesting_items nesting
unavailable_items-nesting N zero = omega arith
unavailable_items-nesting N (suc n) = max-le 0 _ 0 (omega arith) (unavailable_items-nesting N n)

module _ {N O : Type 0} (lower : String → String) (patterns : Patterns) (known : List String) where
  mutual
    unfolding redact_at redact_items redact_entries nesting nesting_items nesting_entries

    redact_at-nesting :
        (depth : ℕ) (last : Option String) (v : Value N O)
        → nesting (redact_at lower patterns known depth last v) ≤ 13 - depth
    redact_at-nesting depth last Value.null = within-nesting depth _ (λ _. omega arith)
    redact_at-nesting depth last (Value.number n) = within-nesting depth _ (λ _. omega arith)
    redact_at-nesting depth last (Value.text t) = within-nesting depth _ (λ _. omega arith)
    redact_at-nesting depth last (Value.bytes o) = within-nesting depth _ (λ _. omega arith)
    redact_at-nesting depth last (Value.exception o) = within-nesting depth _ (λ k. omega arith)
    redact_at-nesting depth last (Value.exception_from o cause) =
        within-nesting depth _
          (λ k. ground (arith, redact_at-nesting (suc depth) (some "cause") cause))
    redact_at-nesting depth last Value.cycle = within-nesting depth _ (λ _. omega arith)
    redact_at-nesting depth last (Value.model dumped) =
        within-nesting depth _ (λ _. omega (arith, redact_at-nesting (suc depth) last dumped))
    redact_at-nesting depth last (Value.model_failing o) = within-nesting depth _ (λ _. omega arith)
    redact_at-nesting depth last (Value.dataclass fields) = within-nesting depth _ (λ _. omega (
      arith,
      within-nesting (suc depth)
          (Public.dict
            (redact_entries lower patterns known (suc (suc depth)) fields PublicEntries.end))
          (λ k. omega (
            arith,
            redact_entries-nesting (suc (suc depth)) fields PublicEntries.end (omega arith),
          )),
    ))
    redact_at-nesting depth last (Value.dict entries) = within-nesting depth _ (λ k.
        omega (arith, redact_entries-nesting (suc depth) entries PublicEntries.end (omega arith)))
    redact_at-nesting depth last (Value.list items) =
        within-nesting depth _ (λ k. omega (arith, redact_items-nesting (suc depth) items))
    redact_at-nesting depth last (Value.set n o) =
        within-nesting depth _ (λ k. omega (arith, unavailable_items-nesting N n))
    redact_at-nesting depth last (Value.opaque o) = within-nesting depth _ (λ _. omega arith)

    redact_items-nesting :
        (depth : ℕ) (items : Items N O)
        → nesting_items (redact_items lower patterns known depth items) ≤ 13 - depth
    redact_items-nesting depth Items.nil = omega arith
    redact_items-nesting depth (Items.cons v items) =
        max-le _ _ (13 - depth) (redact_at-nesting depth none v) (redact_items-nesting depth items)

    redact_entries-nesting :
        (depth : ℕ) (entries : Entries N O) (result : PublicEntries N)
        → nesting_entries result ≤ 13 - depth
        → nesting_entries (redact_entries lower patterns known depth entries result) ≤ 13 - depth
    redact_entries-nesting depth Entries.end result h = h
    redact_entries-nesting depth (Entries.entry key v entries) result h =
        redact_entries-nesting depth entries _ (
          set_entry-nesting key _ result (13 - depth)
            (under_key-nesting lower key _ (13 - depth)
              (redact_at-nesting depth (some (lower key)) v))
            h)
    redact_entries-nesting depth (Entries.raising key entries) result h =
        redact_entries-nesting depth entries _ (
          set_entry-nesting key _ result (13 - depth)
            (under_key-nesting lower key _ (13 - depth) (
              within-nesting depth (shown_text patterns known (some (lower key)) unavailable)
                (λ _. omega arith)))
            h)
    redact_entries-nesting depth (Entries.unnamed o entries) result h =
        redact_entries-nesting depth entries _ (
          set_entry-nesting unavailable (Public.text unavailable) result (13 - depth) (omega arith)
            h)

  -- For any value, however deep: what `redact` returns is nested at most 13 collections deep.
  pub redact-nesting : (v : Value N O) → nesting (redact lower patterns known v) ≤ 13
  unfolding redact
  redact-nesting v = redact_at-nesting 0 none v
