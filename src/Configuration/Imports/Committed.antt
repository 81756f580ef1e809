-- ===== src/Configuration/Imports/Committed.antt =====
-- transactions.py and journal.py: an import that is committed, and then cleaned up or recovered.
use deepagent_shell.Prelude.{
  ℕ, String, List, [], ◌∷◌, insert, remove, length, string_eq, pair_eq, ◌≡◌, ◌⊎◌, refl, sym, ◌∙◌,
  ap, subst, arith, inl, inr, beq_refl, append-nil,
}
use deepagent_shell.Configuration.Imports.{
  FilePath, prepared, committed, write_journal, run, move, ImportJournal, Disk, PreparedImport,
  journal_of,
}
use deepagent_shell.Configuration.Imports.Cleanup.{
  Undo, undo_all, cleanup_undos, recovery_undos, recover_up_to, recover, recover_often, Torn, Cut,
  undo_up_to,
}
use deepagent_shell.Configuration.Imports.Moves.{asset_paths}
use deepagent_shell.Configuration.Imports.Cleaned.{InPlace, Uncleaned, Cleaning, settles-Cleaning}
use deepagent_shell.Configuration.Imports.Recovered.{undo_up_to-length}

module _ {R C : Type 0} (id : String) (plan : PreparedImport R C) (d : Disk R C)
    (journalled : d.journals ≡ (id, journal_of id plan prepared) ∷ []) where
  abbrev final : ImportJournal
  final = journal_of id plan committed

  abbrev paths_of : List FilePath
  paths_of = asset_paths plan

  final_dropped : remove id ((id, final) ∷ []) ≡ []
  unfolding remove
  final_dropped = rw (beq_refl id) (refl)

  abbrev CleaningNow : ℕ → List Undo → Disk R C → Type 0
  CleaningNow n undos s = Cleaning id paths_of d ((id, final) ∷ []) final_dropped n undos s

  abbrev UncleanedNow : Disk R C → Type 0
  UncleanedNow s = Uncleaned id paths_of d ((id, final) ∷ []) final_dropped s

  cleanup-CleaningNow :
      (s : Disk R C)
      → UncleanedNow s
      → (n : ℕ) (torn : Torn)
      → CleaningNow n (cleanup_undos final) (undo_up_to n torn (cleanup_undos final) s)
  unfolding cleanup_undos
  cleanup-CleaningNow s (h, j) n torn =
      settles-Cleaning id paths_of d ((id, final) ∷ []) final_dropped torn paths_of (λ p c. c) s h j
        n

  one_journal : (s : Disk R C) → UncleanedNow s → recovery_undos s.journals ≡ cleanup_undos final
  unfolding recovery_undos
  one_journal s w = ap (λ m. recovery_undos m) w.1 ∙ append-nil (cleanup_undos final)

  no_undos : (s : Disk R C) → InPlace id paths_of d s → recovery_undos s.journals ≡ []
  unfolding recovery_undos
  no_undos s placed = ap (λ m. recovery_undos m) placed.1

  abbrev Either : Disk R C → Type 0
  Either s = UncleanedNow s ⊎ InPlace id paths_of d s

  CleaningNow-Either : (n : ℕ) (undos : List Undo) (s : Disk R C) → CleaningNow n undos s → Either s
  CleaningNow-Either n undos s (inl (w, lt)) = inl w
  CleaningNow-Either n undos s (inr placed) = inr placed

  CleaningNow-InPlace :
      (undos : List Undo) (s : Disk R C)
      → CleaningNow (length undos) undos s
      → InPlace id paths_of d s
  CleaningNow-InPlace undos s (inl (w, lt)) = absurd (omega (arith, lt))
  CleaningNow-InPlace undos s (inr placed) = placed

  recover_up_to-Either : (s : Disk R C) → Either s → (cut : Cut) → Either (recover_up_to cut s)
  unfolding recover_up_to undo_up_to
  recover_up_to-Either s (inl w) cut = CleaningNow-Either cut.changes (cleanup_undos final) _ (
      subst
        (λ undos.
          CleaningNow cut.changes (cleanup_undos final) (undo_up_to cut.changes cut.torn undos s))
        (sym (one_journal s w)) (cleanup-CleaningNow s w cut.changes cut.torn))
  recover_up_to-Either s (inr placed) cut = inr (
      subst (λ undos. InPlace id paths_of d (undo_up_to cut.changes cut.torn undos s))
        (sym (no_undos s placed)) placed)

  recover_often-Either : (cuts : List Cut) (s : Disk R C) → Either s → Either (recover_often cuts s)
  unfolding recover_often
  recover_often-Either [] s e = e
  recover_often-Either (cut ∷ cuts) s e =
      recover_often-Either cuts (recover_up_to cut s) (recover_up_to-Either s e cut)

  recover-InPlace : (s : Disk R C) → Either s → InPlace id paths_of d (recover s)
  unfolding recover undo_all
  recover-InPlace s (inl w) =
      let undos = cleanup_undos final in
      let whole : Torn = record { markers = []; files = []; folders = [] } in
      subst (λ us. InPlace id paths_of d (undo_all us s)) (sym (one_journal s w))
        (subst (λ next. InPlace id paths_of d next) (undo_up_to-length whole undos s)
          (CleaningNow-InPlace undos _ (cleanup-CleaningNow s w (length undos) whole)))
  recover-InPlace s (inr placed) =
      subst (λ us. InPlace id paths_of d (undo_all us s)) (sym (no_undos s placed)) placed

  write_journal-UncleanedNow : UncleanedNow (record d { journals = insert id final d.journals })
  unfolding insert
  write_journal-UncleanedNow = (
    record { configs_kept = λ p. refl; contents_kept = λ p. refl; assets_free = λ p c. inr c },
    ap (λ m. insert id final m) journalled ∙ rw (beq_refl id) (refl),
  )

  -- The journal of the import is the only one, and says that it is prepared. Once the journal is written as
  -- committed, let the cleanup be cut off, and any number of recoveries, each after any number of changes and
  -- on the way of the next, if that is a removal. Then one whole recovery leaves every file of a record as
  -- it was at the commit and every asset's folder with the same content; no folder of the import is claimed by
  -- it any longer, and no journal is left.
  pub recover-keeps :
      (cleanup : Cut) (cuts : List Cut)
      → InPlace id (asset_paths plan) d (
          recover (
            recover_often cuts (
              undo_up_to cleanup.changes cleanup.torn
                (cleanup_undos final)
                (run id (write_journal final ∷ []) d))))
  unfolding run move
  recover-keeps cleanup cuts =
      let start = record d { journals = insert id final d.journals } in
      let cleaned = undo_up_to cleanup.changes cleanup.torn (cleanup_undos final) start in
      recover-InPlace (recover_often cuts cleaned) (
        recover_often-Either cuts cleaned (
          CleaningNow-Either cleanup.changes (cleanup_undos final) cleaned
            (cleanup-CleaningNow start write_journal-UncleanedNow cleanup.changes cleanup.torn)))
