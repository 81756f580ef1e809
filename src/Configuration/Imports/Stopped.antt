-- ===== src/Configuration/Imports/Stopped.antt =====
-- transactions.py: an import that stops on the way of a move.
use deepagent_shell.Prelude.{
  ℕ, String, not, List, [], ◌∷◌, ◌++◌, some, Dict, lookup, insert, contains, keep, take, drop,
  string_eq, pair_eq, ◌≡◌, sym, subst, inl, inr, Option-cases, append-nil,
}
use mathlib.Core.Option.{some-injective}
use deepagent_shell.Configuration.Imports.{
  FilePath, ImportJournal, Disk, PreparedImport, Move, write_journal, make_staging, materialize,
  claim, publish, write_config, move, put_tree, run, import_moves, partly_moved, stopped_moves,
}
use deepagent_shell.Configuration.Imports.Forward.{run_step, Open, put_tree-Open}
use deepagent_shell.Configuration.Imports.Staging.{bind-some}
use deepagent_shell.Configuration.Imports.Moves.{record_paths, asset_paths, import_moves-Open}

module _ {R C : Type 0} (id : String) (P : Disk R C → Type 0) where
  run_last :
      (m : Move R C)
      → ((s next : Disk R C) → P s → move id m s ≡ some next → P next)
      → (moves : List (Move R C)) (s : Disk R C) → P (run id moves s)
      → P (run id (moves ++ m ∷ []) s)
  unfolding run
  run_last m k [] s h = run_step id P m [] s h (λ next e. k s next h e)
  run_last m k (x ∷ moves) s h = elim (Option-cases (move id x s)) [
    | inl e ↦ rw (e, run) (rw (e, run) at h)
    | inr (next, e) ↦ rw (e, run) (run_last m k moves next (rw (e, run) at h))
  ]

  none_more :
      (moves : List (Move R C)) (s : Disk R C) → P (run id moves s) → P (run id (moves ++ []) s)
  none_more moves s h = subst (λ ms. P (run id ms s)) (sym (append-nil moves)) h

  partly_moved_lem :
      ((path : FilePath) (content : Dict String C) (s next : Disk R C)
        → P s
        → move id (materialize path content) s ≡ some next
        → P next)
      → (missing : List String) (rest moves : List (Move R C)) (s : Disk R C) → P (run id moves s)
      → P (run id (moves ++ partly_moved missing rest) s)
  partly_moved_lem k missing [] moves s h = none_more moves s h
  partly_moved_lem k missing (materialize path content ∷ rest) moves s h =
      run_last (materialize path (keep (λ file. not (contains file.0 missing)) content)) (k path _)
        moves s h
  partly_moved_lem k missing (write_journal journal ∷ rest) moves s h = none_more moves s h
  partly_moved_lem k missing (make_staging ∷ rest) moves s h = none_more moves s h
  partly_moved_lem k missing (claim path ∷ rest) moves s h = none_more moves s h
  partly_moved_lem k missing (publish path ∷ rest) moves s h = none_more moves s h
  partly_moved_lem k missing (write_config path value ∷ rest) moves s h = none_more moves s h

module _ {R C : Type 0} (id : String) (d : Disk R C) (L : FilePath → Type 0)
    (plan : PreparedImport R C) (journals : Dict String ImportJournal) where
  abbrev OpenHere : Disk R C → Type 0
  OpenHere s = Open id d L (record_paths plan) (asset_paths plan) journals s

  materialize-OpenHere :
      (path : FilePath) (content : Dict String C) (s next : Disk R C)
      → OpenHere s
      → move id (materialize path content) s ≡ some next
      → OpenHere next
  unfolding move
  materialize-OpenHere path content s next o e =
      let (tree, t, e1) = bind-some (lookup id s.staging) _ next e in
      let staged = insert path (record { claims = []; content = content }) tree in
      subst (λ x. OpenHere x) (some-injective (put_tree id staged s) next e1)
        (put_tree-Open id d L (record_paths plan) (asset_paths plan) journals staged s o)

  -- Wherever an import stops, it can be undone.
  pub stopped_moves-Open :
      (n : ℕ) (missing : List String) (s : Disk R C)
      → OpenHere s
      → OpenHere (run id (stopped_moves n missing (import_moves plan)) s)
  unfolding stopped_moves
  stopped_moves-Open n missing s o =
      partly_moved_lem id OpenHere materialize-OpenHere missing (drop n (import_moves plan))
        (take n (import_moves plan)) s (import_moves-Open id d L plan journals n s o)
