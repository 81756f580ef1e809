-- ===== src/Configuration/Imports/Cleaned.antt =====
-- journal.py: the changes that clean up after an import that is committed.
use deepagent_shell.Prelude.{
  ℕ, zero, suc, ◌<◌, String, true, false, not, List, [], ◌∷◌, ◌++◌, Option, none, some, Dict,
  lookup, remove, contains, keep, length, map, string_eq, pair_eq, ◌==◌, ◌≡◌, ◌⊎◌, refl, sym, ◌∙◌,
  ap, subst, arith, inl, inr, Bool-cases, beq-cases, beq_sym,
}
use deepagent_shell.Configuration.Imports.{FilePath, Folder, committed, ImportJournal, Disk}
use deepagent_shell.Configuration.Imports.Cleanup.{
  Undo, settle, drop_staging, drop_journal, settled, undo, Torn, undo_partly, undo_up_to,
}
use deepagent_shell.Configuration.Imports.Undone.{insert-other, later_among}
use deepagent_shell.Configuration.Imports.Forward.{insert_self}

-- What a folder holds, its markers apart.
abbrev pub content_of : {C : Type 0} → Option (Folder C) → Option (Dict String C)
content_of none = none
content_of (some folder) = some folder.content

-- A folder that the import does not claim.
abbrev pub IsFree : {C : Type 0} → String → Option (Folder C) → Type 0
IsFree id none = Unit {0}
IsFree id (some folder) = contains id folder.claims ≡ false

owners_left :
    (id : String) (owners : List String)
    → contains id (keep (λ owner. not (owner == id)) owners) ≡ false
owners_left id [] = refl
owners_left id (owner ∷ owners) = elim (Bool-cases (owner == id)) [
  | inl e ↦ rw e (owners_left id owners)
  | inr e ↦ rw e (ground (arith, owners_left id owners, beq_sym id owner, e))
]

module _ {C : Type 0} (id : String) (path : FilePath) where
  settled-content :
      (p : FilePath) (there : Option (Folder C)) (assets : Dict FilePath (Folder C))
      → lookup path assets ≡ there
      → content_of (lookup p (settled id committed path there assets))
        ≡ content_of (lookup p assets)
  settled-content p none assets e = refl
  settled-content p (some folder) assets e = elim (Bool-cases (contains id folder.claims)) [
    | inl c ↦ rw c (elim (beq-cases path p) [
      | inl t ↦
          ap (λ o. content_of o) (insert_self path p _ assets t)
          ∙ sym (ap (λ o. content_of o) (subst (λ q. lookup q assets ≡ some folder) t e))
      | inr n ↦ ap (λ o. content_of o) (insert-other path p _ assets n)
    ])
    | inr c ↦ rw c (refl)
  ]

  settled-IsFree :
      (there : Option (Folder C)) (assets : Dict FilePath (Folder C))
      → lookup path assets ≡ there
      → IsFree id (lookup path (settled id committed path there assets))
  settled-IsFree none assets e = rw e (tt)
  settled-IsFree (some folder) assets e = elim (Bool-cases (contains id folder.claims)) [
    | inl c ↦
        rw
          (
            c,
            insert_self path path
                (record folder { claims = keep (λ owner. not (owner == id)) folder.claims }) assets
                refl,
          )
          (owners_left id folder.claims)
    | inr c ↦ rw (c, e) (c)
  ]

  settled-other :
      (p : FilePath) (there : Option (Folder C)) (assets : Dict FilePath (Folder C))
      → (path == p) ≡ false
      → lookup p (settled id committed path there assets) ≡ lookup p assets
  settled-other p none assets n = refl
  settled-other p (some folder) assets n = elim (Bool-cases (contains id folder.claims)) [
    | inl c ↦ rw c (insert-other path p _ assets n)
    | inr c ↦ rw c (refl)
  ]

module _ {R C : Type 0} (id : String) (paths : List FilePath) (d : Disk R C) where
  -- The records are those of `d`, the folders hold the same, and those of the import are free but for some.
  pub record Kept (claimed : List FilePath) (s : Disk R C) : Type 0 where
    pub configs_kept : (path : FilePath) → lookup path s.configs ≡ lookup path d.configs
    pub contents_kept :
        (path : FilePath) → content_of (lookup path s.assets) ≡ content_of (lookup path d.assets)
    pub assets_free :
        (path : FilePath)
        → contains path paths ≡ true
        → IsFree id (lookup path s.assets) ⊎ (contains path claimed ≡ true)

  settle-Kept :
      (path : FilePath) (claimed : List FilePath) (s : Disk R C)
      → Kept (path ∷ claimed) s
      → Kept claimed (undo (settle id committed path) s)
  unfolding undo
  settle-Kept path claimed s h = record {
    configs_kept = h.configs_kept;
    contents_kept =
        λ p. settled-content id path p (lookup path s.assets) s.assets refl ∙ h.contents_kept p;
    assets_free = λ p c. elim (beq-cases path p) [
      | inl e ↦ inl (
          subst
            (λ q. IsFree id (lookup q (settled id committed path (lookup path s.assets) s.assets)))
            e (settled-IsFree id path (lookup path s.assets) s.assets refl))
      | inr n ↦ elim (h.assets_free p c) [
        | inl free ↦ inl (
            subst (λ o. IsFree id o)
              (sym (settled-other id path p (lookup path s.assets) s.assets n)) free)
        | inr among ↦ inr (later_among p path claimed n among)
      ]
    ];
  }

  Kept-all :
      (claimed : List FilePath) (s : Disk R C)
      → ((p : FilePath) → contains p claimed ≡ true → contains p paths ≡ true)
      → Kept claimed s
      → Kept paths s
  Kept-all claimed s f h = record {
    configs_kept = h.configs_kept;
    contents_kept = h.contents_kept;
    assets_free =
        λ p c. elim (h.assets_free p c) [ inl free ↦ inl free | inr among ↦ inr (f p among) ];
  }

  staging_dropped : (s : Disk R C) → Kept [] s → Kept [] (undo (drop_staging id) s)
  unfolding undo
  staging_dropped s h = record {
    configs_kept = h.configs_kept;
    contents_kept = h.contents_kept;
    assets_free = h.assets_free;
  }

  staging_torn :
      (torn : Torn) (s : Disk R C) → Kept [] s → Kept [] (undo_partly torn (drop_staging id) s)
  unfolding undo_partly
  staging_torn torn s h = record {
    configs_kept = h.configs_kept;
    contents_kept = h.contents_kept;
    assets_free = h.assets_free;
  }

  all_dropped :
      (s : Disk R C) → Kept [] s → Kept [] (undo (drop_journal id) (undo (drop_staging id) s))
  unfolding undo
  all_dropped s h = record {
    configs_kept = h.configs_kept;
    contents_kept = h.contents_kept;
    assets_free = h.assets_free;
  }

  settle_journals :
      (s : Disk R C) (path : FilePath) {journals : Dict String ImportJournal}
      → s.journals ≡ journals
      → (undo (settle id committed path) s).journals ≡ journals
  unfolding undo
  settle_journals s path j = j

  -- The import is in place: no folder of it is claimed any longer, and no journal is left.
  abbrev pub InPlace : Disk R C → Type 0
  InPlace s = Kept [] s × (s.journals ≡ [])

  module _ (journals : Dict String ImportJournal) (dropped : remove id journals ≡ []) where
    abbrev pub Uncleaned : Disk R C → Type 0
    Uncleaned s = Kept paths s × (s.journals ≡ journals)

    abbrev pub Cleaning : ℕ → List Undo → Disk R C → Type 0
    Cleaning n undos s = (Uncleaned s × (n < length undos)) ⊎ InPlace s

    one_more :
        (n : ℕ) (u : Undo) (undos : List Undo) (s : Disk R C)
        → Cleaning n undos s
        → Cleaning (suc n) (u ∷ undos) s
    one_more n u undos s (inl (w, lt)) = inl (w, omega (arith, lt))
    one_more n u undos s (inr placed) = inr placed

    drops-Cleaning :
        (torn : Torn) (s : Disk R C)
        → Kept [] s
        → s.journals ≡ journals
        → (n : ℕ)
        → Cleaning n
            (drop_staging id ∷ drop_journal id ∷ [])
            (undo_up_to n torn (drop_staging id ∷ drop_journal id ∷ []) s)
    unfolding undo_up_to undo undo_partly
    drops-Cleaning torn s h j zero =
        inl ((Kept-all [] _ (λ p c. cc) (staging_torn torn s h), j), omega arith)
    drops-Cleaning torn s h j (suc zero) =
        inl ((Kept-all [] _ (λ p c. cc) (staging_dropped s h), j), omega arith)
    drops-Cleaning torn s h j (suc (suc n)) =
        inr (all_dropped s h, ap (λ m. remove id m) j ∙ dropped)

    pub settles-Cleaning :
        (torn : Torn) (claimed : List FilePath)
        → ((p : FilePath) → contains p claimed ≡ true → contains p paths ≡ true)
        → (s : Disk R C) → Kept claimed s
        → s.journals ≡ journals
        → (n : ℕ)
        → Cleaning n
            (map (λ path. settle id committed path) claimed
              ++ drop_staging id ∷ drop_journal id ∷ [])
            (undo_up_to n torn
              (map (λ path. settle id committed path) claimed
                ++ drop_staging id ∷ drop_journal id ∷ [])
              s)
    unfolding undo_up_to undo_partly
    settles-Cleaning torn [] f s h j n = drops-Cleaning torn s h j n
    settles-Cleaning torn (path ∷ claimed) f s h j zero =
        inl ((Kept-all (path ∷ claimed) s f h, j), omega arith)
    settles-Cleaning torn (path ∷ claimed) f s h j (suc n) =
        one_more n (settle id committed path) _ _ (
          settles-Cleaning torn claimed (λ p c. f p (ground (arith, c)))
            (undo (settle id committed path) s) (settle-Kept path claimed s h)
            (settle_journals s path j) n)
