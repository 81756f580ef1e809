-- ===== src/Configuration/Imports/Samples.antt =====
-- An import of a command with its package beside an agent and a package that are there.
use deepagent_shell.Prelude.{
  ℕ, true, false, [], ◌∷◌, none, some, lookup, contains, insert, remove, text_append, string_eq,
  pair_eq, subst, ◌≡◌, refl, ◌==◌, inl, inr, Bool-cases,
}
use mathlib.Core.Option.{some-injective}
use deepagent_shell.Configuration.Imports.{
  FilePath, Folder, component, Disk, PreparedImport, journal_of, prepared, write_journal,
  import_moves, stopped_moves, run, committed, clashes,
}
use deepagent_shell.Configuration.Imports.Cleanup.{
  undo_all, cleanup_undos, rollback_undos, recover, recover_often, Cut, loses_marker, undo_up_to,
  undo_partly, undo, recover_up_to, recovery_undos,
}
use deepagent_shell.Configuration.Imports.Removals.{Restored}
use deepagent_shell.Configuration.Imports.Cleaned.{InPlace}
use deepagent_shell.Configuration.Imports.Committed.{recover-keeps}
use deepagent_shell.Configuration.Imports.Moves.{asset_paths}
use deepagent_shell.Configuration.Imports.Atomic.{recover-undoes}

abbrev there : Disk ℕ ℕ
there = record {
  configs = (("agents/main", "a"), 1) ∷ [];
  assets =
      (("skill_package_instances", "k"), record { claims = []; content = ("SKILL.md", 2) ∷ [] })
      ∷ [];
  staging = [];
  journals = [];
}

abbrev plan : PreparedImport ℕ ℕ
plan = record {
  target_entities =
      (record { kind = component; component_type = "command"; target_id = "c" }, 3) ∷ [];
  plans = (("python_package_instances/command", "c"), ("command.py", 4) ∷ []) ∷ [];
}

no_clash : clashes plan there ≡ false
unfolding clashes
no_clash = refl

unclaimed :
    (path : FilePath) (folder : Folder ℕ)
    → lookup path there.assets ≡ some folder
    → contains "t" folder.claims ≡ false
unfolding lookup
unclaimed path folder h =
    elim (Bool-cases ((let p : FilePath = ("skill_package_instances", "k") in p) == path)) [
      | inl e ↦
          subst (λ f. contains "t" f.claims ≡ false)
            (some-injective (record { claims = []; content = ("SKILL.md", 2) ∷ [] }) folder
              (rw e at h))
            refl
      | inr e ↦ cc (rw e at h)
    ]

no_staging : lookup "t" there.staging ≡ none
unfolding lookup
no_staging = refl

-- Between changes, and on the way of a removal after which the marker is still there.
abbrev between : ℕ → Cut
between n = record {
  changes = n;
  torn = record { markers = []; files = "command.py" ∷ []; folders = [] };
}

recover-undoes_example :
    Restored "t" there
      (λ path.
        (loses_marker "t" (between 2 ∷ between 3 ∷ between 1 ∷ []) ≡ true)
        × (contains path (asset_paths plan) ≡ true))
      (recover (
        recover_often (between 3 ∷ between 1 ∷ []) (
          undo_up_to 2
            (record { markers = []; files = "command.py" ∷ []; folders = [] })
            (rollback_undos true (journal_of "t" plan prepared))
            (run "t"
              (write_journal (journal_of "t" plan prepared)
                ∷ stopped_moves 5 ("command.py" ∷ []) (import_moves plan))
              there))))
recover-undoes_example =
    recover-undoes "t" plan there refl no_staging unclaimed no_clash 5 ("command.py" ∷ [])
      (between 2) true (between 3 ∷ between 1 ∷ [])

-- The disk at the commit: the record is written and the package is in its place, with its marker.
abbrev published : Disk ℕ ℕ
published = record {
  configs = (("agents/main", "a"), 1) ∷ (("components/command", "c"), 3) ∷ [];
  assets =
      (("skill_package_instances", "k"), record { claims = []; content = ("SKILL.md", 2) ∷ [] })
      ∷ (
        ("python_package_instances/command", "c"),
        record { claims = "t" ∷ []; content = ("command.py", 4) ∷ [] },
      )
      ∷ [];
  staging = ("t", []) ∷ [];
  journals = ("t", journal_of "t" plan prepared) ∷ [];
}

recover-keeps_example : InPlace "t" (asset_paths plan) published (
    recover (
      recover_often (between 1 ∷ []) (
        undo_up_to 1
          (record { markers = []; files = "command.py" ∷ []; folders = [] })
          (cleanup_undos (journal_of "t" plan committed))
          (run "t" (write_journal (journal_of "t" plan committed) ∷ []) published))))
recover-keeps_example = recover-keeps "t" plan published refl (between 1) (between 1 ∷ [])

-- What the import leaves on the disk of before.
imported :
    run "t" (write_journal (journal_of "t" plan prepared) ∷ import_moves plan) there ≡ published
unfolding run lookup insert remove text_append import_moves
imported = refl

-- The recovery of an import that has published its package is cut off when the folder's marker is gone: the
-- rest of the folder stays.
recover_leaves :
    lookup
      ("python_package_instances/command", "c")
      (recover (
        recover_up_to
          (record { changes = 1; torn = record { markers = "t" ∷ []; files = []; folders = [] } })
          published)).assets
    ≡ some (record { claims = []; content = ("command.py", 4) ∷ [] })
unfolding recover recover_up_to undo_up_to undo_partly undo_all undo recovery_undos cleanup_undos
    lookup insert remove
recover_leaves = refl
