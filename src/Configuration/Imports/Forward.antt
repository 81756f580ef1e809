-- ===== src/Configuration/Imports/Forward.antt =====
-- transactions.py: the moves of an import, each of which leaves the disk such that it can be undone.
use deepagent_shell.Prelude.{
  ℕ, zero, suc, String, true, List, [], ◌∷◌, Option, none, some, Dict, lookup, insert, contains,
  take, map, string_eq, pair_eq, if◌then◌else◌, ◌==◌, ◌≡◌, ◌⊎◌, sym, ◌∙◌, ap, subst, inl, inr,
  Option-cases, beq-cases, beq_refl, lookup-insert, All,
}
use deepagent_shell.Configuration.Imports.{
  FilePath, Folder, JournalRecord, ImportJournal, Disk, configuration_path, Move, write_config,
  put_tree, move, run,
}
use deepagent_shell.Configuration.Imports.Undone.{Pending, AssetAt, AssetAt-weaker, insert-other}

pub insert_self :
    {V : Type 0} (k j : FilePath) (v : V) (m : Dict FilePath V)
    → k ≡ j
    → lookup j (insert k v m) ≡ some v
insert_self k j v m e =
    lookup-insert k j v m
    ∙ ap (λ b. if b then some v else lookup j m) (subst (λ i. (k == i) ≡ true) e (beq_refl k))

pub among_self :
    (path p : FilePath) (paths : List FilePath)
    → path ≡ p
    → contains path paths ≡ true
    → contains p paths ≡ true
among_self path p paths e c = subst (λ q. contains q paths ≡ true) e c

module _ {R C : Type 0} (id : String) where
  -- A run that goes on where its first move does not raise.
  pub run_step :
      (P : Disk R C → Type 0) (m : Move R C) (moves : List (Move R C)) (s : Disk R C)
      → P s
      → ((next : Disk R C) → move id m s ≡ some next → P (run id moves next))
      → P (run id (m ∷ moves) s)
  unfolding run
  run_step P m moves s h k = elim (Option-cases (move id m s)) [
    | inl e ↦ rw (e, run) (h)
    | inr (next, e) ↦ rw (e, run) (k next e)
  ]

  -- Each staged folder is claimed, but for those of some paths.
  abbrev pub Staged : List FilePath → Disk R C → Type 0
  Staged unclaimed s =
      (tree : Dict FilePath (Folder C))
      → lookup id s.staging ≡ some tree
      → (path : FilePath) (folder : Folder C) → lookup path tree ≡ some folder
      → (contains id folder.claims ≡ true) ⊎ (contains path unclaimed ≡ true)

module _ {R C : Type 0} (id : String) (d : Disk R C) (L : FilePath → Type 0)
    (records assets : List FilePath) (journals : Dict String ImportJournal) where
  -- The import can be undone, and its journal stands.
  abbrev pub Open : Disk R C → Type 0
  Open s = Pending id d L records assets s × (s.journals ≡ journals)

  pub put_tree-Open :
      (tree : Dict FilePath (Folder C)) (s : Disk R C) → Open s → Open (put_tree id tree s)
  put_tree-Open tree s (h, j) = (
    record {
      of_configs = h.of_configs;
      of_assets = h.of_assets;
      of_staging = λ t n.
          lookup-insert id t tree s.staging
          ∙ ap (λ b. if b then some tree else lookup t s.staging) n
          ∙ h.of_staging t n;
    },
    j,
  )

  write_config-Open :
      (path : FilePath) (value : R) (s : Disk R C)
      → contains path records ≡ true
      → Open s
      → Open (record s { configs = insert path value s.configs })
  write_config-Open path value s c (h, j) = (
    record {
      of_configs = λ p. elim (beq-cases path p) [
        | inl e ↦ inr (among_self path p records e c)
        | inr n ↦ elim (h.of_configs p) [
          | inl same ↦ inl (insert-other path p value s.configs n ∙ same)
          | inr among ↦ inr among
        ]
      ];
      of_assets = h.of_assets;
      of_staging = h.of_staging;
    },
    j,
  )

  -- A folder that is not there is not there before the import.
  absent_before :
      (path : FilePath) (there : Option (Folder C))
      → there ≡ none
      → AssetAt id d L assets path there
      → lookup path d.assets ≡ none
  absent_before path there e (inl same) = sym same ∙ e
  absent_before path there e (inr (folder, t, owned, gone)) = gone

  pub publish-Open :
      (path : FilePath) (folder : Folder C) (s : Disk R C)
      → contains path assets ≡ true
      → contains id folder.claims ≡ true
      → lookup path s.assets ≡ none
      → Open s
      → Open (record s { assets = insert path folder s.assets })
  publish-Open path folder s c claims empty (h, j) = (
    record {
      of_configs = h.of_configs;
      of_assets = λ p. elim (beq-cases path p) [
        | inl e ↦ inr (
          folder,
          insert_self path p folder s.assets e,
          inl (claims, among_self path p assets e c),
          subst (λ q. lookup q d.assets ≡ none) e
              (absent_before path (lookup path s.assets) empty (h.of_assets path)),
        )
        | inr n ↦
            AssetAt-weaker id d L assets assets p (lookup p s.assets) _
              (insert-other path p folder s.assets n) (λ among. among) (h.of_assets p)
      ];
      of_staging = h.of_staging;
    },
    j,
  )

  pub writes-Open :
      (entities : List (JournalRecord × R))
      → All (λ entity. contains (configuration_path entity.0) records ≡ true) entities
      → (n : ℕ) (s : Disk R C) → Open s
      → Open (
          run id
            (take n (map (λ entity. write_config (configuration_path entity.0) entity.1) entities))
            s)
  unfolding run move
  writes-Open entities h zero s o = o
  writes-Open [] h (suc n) s o = o
  writes-Open (entity ∷ entities) h (suc n) s o =
      writes-Open entities h.1 n _
        (write_config-Open (configuration_path entity.0) entity.1 s h.0 o)
