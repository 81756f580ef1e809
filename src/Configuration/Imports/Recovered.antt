-- ===== src/Configuration/Imports/Recovered.antt =====
-- journal.py and transactions.py: the changes that take back an import, whole or cut off.
use deepagent_shell.Prelude.{
  ℕ, zero, suc, ◌<◌, String, true, false, List, [], ◌∷◌, ◌++◌, Option, none, some, Dict, lookup,
  remove, contains, any, length, take, map, string_eq, pair_eq, if◌then◌else◌, ◌≡◌, ◌⊎◌, refl, sym,
  ◌∙◌, ap, subst, arith, inl, inr, beq-cases, beq_refl, beq_sym, lookup-remove, or_false, All,
}
use deepagent_shell.Configuration.Imports.{
  FilePath, Folder, prepared, JournalRecord, ImportJournal, Disk, configuration_path, folder_of,
  PreparedImport, clashes,
}
use deepagent_shell.Configuration.Imports.Cleanup.{
  Undo, delete_config, settle, drop_staging, drop_journal, undo, undo_all, record_undos, Torn,
  undo_partly, undo_up_to,
}
use deepagent_shell.Configuration.Imports.Undone.{
  Pending, delete_config-Pending, settle-Pending, AssetAt, AssetAt-weaker,
}
use deepagent_shell.Configuration.Imports.Removals.{
  LeftAt, Restored, torn-Pending, torn_staging-other,
}

pub take-length {ℓ} : {A : Type ℓ} (xs : List A) → take (length xs) xs ≡ xs
take-length [] = refl
take-length (x ∷ xs) = ap (λ rest. x ∷ rest) (take-length xs)

pub take-nil {ℓ} : {A : Type ℓ} (n : ℕ) → take n (let xs : List A = [] in xs) ≡ []
take-nil zero = refl
take-nil (suc n) = refl

-- Changes that are cut off after the last of them.
pub undo_up_to-length :
    {R C : Type 0} (torn : Torn) (undos : List Undo) (s : Disk R C)
    → undo_up_to (length undos) torn undos s ≡ undo_all undos s
unfolding undo_up_to undo_all
undo_up_to-length torn [] s = refl
undo_up_to-length torn (u ∷ undos) s = undo_up_to-length torn undos (undo u s)

lookup-unnamed :
    {R : Type 0} (folder name : String) (configs : Dict FilePath R)
    → contains name (map (λ file. file.0.1) configs) ≡ false
    → lookup (folder, name) configs ≡ none
unfolding lookup
lookup-unnamed folder name [] h = refl
lookup-unnamed folder name ((path, value) ∷ configs) h =
    ground (arith, h, lookup-unnamed folder name configs, beq_sym name path.1)

module _ {R C : Type 0} (id : String) (d : Disk R C) (L : FilePath → Type 0)
    (records assets : List FilePath) (journals : Dict String ImportJournal)
    (dropped : remove id journals ≡ []) (unused : lookup id d.staging ≡ none)
    (fresh : (path : FilePath) (folder : Folder C)
      → lookup path d.assets ≡ some folder
      → contains id folder.claims ≡ false) where
  abbrev pub Waiting : Disk R C → Type 0
  Waiting s = Pending id d L records assets s × (s.journals ≡ journals)

  -- After `n` changes of `length undos`: the rest is still to be done, or all is as it was.
  abbrev pub Outcome : ℕ → List Undo → Disk R C → Type 0
  Outcome n undos s = (Waiting s × (n < length undos)) ⊎ Restored id d L s

  one_more :
      (n : ℕ) (u : Undo) (undos : List Undo) (s : Disk R C)
      → Outcome n undos s
      → Outcome (suc n) (u ∷ undos) s
  one_more n u undos s (inl (w, lt)) = inl (w, omega (arith, lt))
  one_more n u undos s (inr same) = inr same

  weaker :
      (some_records some_assets : List FilePath) (s : Disk R C)
      → ((p : FilePath) → contains p some_records ≡ true → contains p records ≡ true)
      → ((p : FilePath) → contains p some_assets ≡ true → contains p assets ≡ true)
      → Pending id d L some_records some_assets s
      → Pending id d L records assets s
  weaker some_records some_assets s f g h = record {
    of_configs = λ p. elim (h.of_configs p) [ inl same ↦ inl same | inr among ↦ inr (f p among) ];
    of_assets = λ p.
        AssetAt-weaker id d L some_assets assets p (lookup p s.assets) _ refl (g p) (h.of_assets p);
    of_staging = h.of_staging;
  }

  drop_staging-Pending :
      (rs ps : List FilePath) (s : Disk R C)
      → Pending id d L rs ps s
      → Pending id d L rs ps (undo (drop_staging id) s)
  unfolding undo
  drop_staging-Pending rs ps s h = record {
    of_configs = h.of_configs;
    of_assets = h.of_assets;
    of_staging = λ t n.
        lookup-remove id t s.staging
        ∙ ap (λ b. if b then none else lookup t s.staging) n
        ∙ h.of_staging t n;
  }

  torn_staging-Pending :
      (torn : Torn) (rs ps : List FilePath) (s : Disk R C)
      → Pending id d L rs ps s
      → Pending id d L rs ps (undo_partly torn (drop_staging id) s)
  unfolding undo_partly
  torn_staging-Pending torn rs ps s h = record {
    of_configs = h.of_configs;
    of_assets = h.of_assets;
    of_staging =
        λ t n. torn_staging-other id torn t (lookup id s.staging) s.staging n ∙ h.of_staging t n;
  }

  asset_restored :
      (path : FilePath) (there : Option (Folder C))
      → AssetAt id d L [] path there
      → (there ≡ lookup path d.assets) ⊎ LeftAt id d L path there
  asset_restored path there (inl same) = inl same
  asset_restored path there (inr (folder, t, inl (c, among), gone)) = cc
  asset_restored path there (inr (folder, t, inr (c, left), gone)) = inr (folder, t, c, left, gone)

  -- A cut that removes the marker of the import while a folder stays leaves that folder.
  module _ (torn : Torn)
      (spare : (p : FilePath)
        → contains p assets ≡ true
        → contains id torn.markers ≡ true
        → L p) where
    pub drops-Outcome :
        (s : Disk R C)
        → Pending id d L [] [] s
        → s.journals ≡ journals
        → (n : ℕ)
        → Outcome n
            (drop_staging id ∷ drop_journal id ∷ [])
            (undo_up_to n torn (drop_staging id ∷ drop_journal id ∷ []) s)
    unfolding undo_up_to undo undo_partly
    drops-Outcome s h j zero = inl (
      (weaker [] [] _ (λ p c. cc) (λ p c. cc) (torn_staging-Pending torn [] [] s h), j),
      omega arith,
    )
    drops-Outcome s h j (suc zero) =
        inl (
          (weaker [] [] _ (λ p c. cc) (λ p c. cc) (drop_staging-Pending [] [] s h), j),
          omega arith,
        )
    drops-Outcome s h j (suc (suc n)) = inr (record {
      configs_same = λ path. elim (h.of_configs path) [ inl same ↦ same | inr among ↦ cc ];
      assets_same = λ path. asset_restored path (lookup path s.assets) (h.of_assets path);
      staging_same = λ t. elim (beq-cases id t) [
        | inl e ↦
            subst (λ i. lookup i (remove id s.staging) ≡ lookup i d.staging) e
              (lookup-remove id id s.staging
                ∙ ap (λ b. if b then none else lookup id s.staging) (beq_refl id)
                ∙ sym unused)
        | inr n ↦
            lookup-remove id t s.staging
            ∙ ap (λ b. if b then none else lookup t s.staging) n
            ∙ h.of_staging t n
      ];
      no_journal = ap (λ m. remove id m) j ∙ dropped;
    })

    pub settles-Outcome :
        (undos : List Undo)
        → ((s : Disk R C)
            → Pending id d L [] [] s
            → s.journals ≡ journals
            → (n : ℕ) → Outcome n undos (undo_up_to n torn undos s))
        → (paths : List FilePath)
        → ((p : FilePath) → contains p paths ≡ true → contains p assets ≡ true)
        → (s : Disk R C) → Pending id d L [] paths s
        → s.journals ≡ journals
        → (n : ℕ)
        → Outcome n
            (map (λ path. settle id prepared path) paths ++ undos)
            (undo_up_to n torn (map (λ path. settle id prepared path) paths ++ undos) s)
    unfolding undo_up_to undo_partly
    settles-Outcome undos k [] f s h j n = k s h j n
    settles-Outcome undos k (path ∷ paths) f s h j zero = inl (
      (
        weaker [] (path ∷ paths) _ (λ p c. cc) f
            (torn-Pending id d L torn path [] (path ∷ paths) s (fresh path)
              (λ c. spare path (f path (rw (beq_refl path) (refl))) c) h),
        j,
      ),
      omega arith,
    )
    settles-Outcome undos k (path ∷ paths) f s h j (suc n) =
        one_more n (settle id prepared path) (map (λ p. settle id prepared p) paths ++ undos) _ (
          settles-Outcome undos k paths (λ p c. f p (ground (arith, c)))
            (undo (settle id prepared path) s)
            (settle-Pending id d L path [] paths s (fresh path) h) j n)

    pub deletes-Outcome :
        (undos : List Undo) (shown : List FilePath)
        → ((p : FilePath) → contains p shown ≡ true → contains p assets ≡ true)
        → ((s : Disk R C)
            → Pending id d L [] shown s
            → s.journals ≡ journals
            → (n : ℕ) → Outcome n undos (undo_up_to n torn undos s))
        → (rs : List JournalRecord)
        → ((p : FilePath)
            → contains p (map configuration_path rs) ≡ true
            → contains p records ≡ true)
        → All (λ r. lookup (configuration_path r) d.configs ≡ none) rs
        → (s : Disk R C) → Pending id d L (map configuration_path rs) shown s
        → s.journals ≡ journals
        → (n : ℕ)
        → Outcome n
            (record_undos rs prepared ++ undos)
            (undo_up_to n torn (record_undos rs prepared ++ undos) s)
    unfolding undo_up_to undo_partly
    deletes-Outcome undos shown g k [] f absent s h j n = k s h j n
    deletes-Outcome undos shown g k (r ∷ rs) f absent s h j zero =
        inl ((weaker (map configuration_path (r ∷ rs)) shown s f g h, j), omega arith)
    deletes-Outcome undos shown g k (r ∷ rs) f absent s h j (suc n) =
        one_more n (delete_config (configuration_path r)) (record_undos rs prepared ++ undos) _ (
          deletes-Outcome undos shown g k rs (λ p c. f p (ground (arith, c))) absent.1
            (undo (delete_config (configuration_path r)) s)
            (delete_config-Pending id d L (configuration_path r) (map configuration_path rs) shown s
              absent.0 h)
            j n)

absent_each :
    {R : Type 0} (entities : List (JournalRecord × R)) (configs : Dict FilePath R)
    → any (λ entity. contains entity.0.target_id (map (λ file. file.0.1) configs)) entities ≡ false
    → All (λ r. lookup (configuration_path r) configs ≡ none) (map (λ entity. entity.0) entities)
absent_each [] configs h = tt
absent_each (entity ∷ entities) configs h =
    let parts = or_false (contains entity.0.target_id (map (λ file. file.0.1) configs)) _ h in
    (
      lookup-unnamed (folder_of entity.0.kind entity.0.component_type) entity.0.target_id configs
          parts.0,
      absent_each entities configs parts.1,
    )

-- No file of a record is there where the ids do not clash.
pub absent_records :
    {R C : Type 0} (plan : PreparedImport R C) (d : Disk R C)
    → clashes plan d ≡ false
    → All
        (λ r. lookup (configuration_path r) d.configs ≡ none)
        (map (λ entity. entity.0) plan.target_entities)
unfolding clashes
absent_records plan d h = absent_each plan.target_entities d.configs h
