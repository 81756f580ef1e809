-- ===== src/Configuration/Imports/Atomic.antt =====
-- transactions.py and journal.py: an import that is not committed and then recovered.
use deepagent_shell.Prelude.{
  ℕ, String, Bool, true, false, List, [], ◌∷◌, none, some, lookup, insert, remove, contains, length,
  string_eq, pair_eq, ◌≡◌, ◌⊎◌, refl, sym, ◌∙◌, ap, subst, arith, inl, inr, beq_refl, append-nil,
}
use deepagent_shell.Configuration.Imports.{
  FilePath, Folder, prepared, ImportJournal, Disk, PreparedImport, journal_of, write_journal, run,
  move, import_moves, stopped_moves, clashes,
}
use deepagent_shell.Configuration.Imports.Cleanup.{
  Undo, undo_all, cleanup_undos, rollback_undos, recovery_undos, recover_up_to, recover,
  recover_often, Torn, Cut, loses_marker, undo_up_to,
}
use deepagent_shell.Configuration.Imports.Undone.{Pending}
use deepagent_shell.Configuration.Imports.Removals.{Restored}
use deepagent_shell.Configuration.Imports.Moves.{record_paths, asset_paths}
use deepagent_shell.Configuration.Imports.Stopped.{stopped_moves-Open}
use deepagent_shell.Configuration.Imports.Recovered.{
  Waiting, Outcome, deletes-Outcome, settles-Outcome, drops-Outcome, undo_up_to-length,
  absent_records,
}

module _ {R C : Type 0} (id : String) (plan : PreparedImport R C) (d : Disk R C)
    (no_journal : d.journals ≡ []) (unused : lookup id d.staging ≡ none)
    (fresh : (path : FilePath) (folder : Folder C)
      → lookup path d.assets ≡ some folder
      → contains id folder.claims ≡ false)
    (free_ids : clashes plan d ≡ false) (lost : Bool) where
  -- Where a folder may be left.
  abbrev Loss : FilePath → Type 0
  Loss path = (lost ≡ true) × (contains path (asset_paths plan) ≡ true)

  abbrev own : ImportJournal
  own = journal_of id plan prepared

  dropped : remove id ((id, own) ∷ []) ≡ []
  unfolding remove
  dropped = rw (beq_refl id) (refl)

  abbrev IsWaiting : Disk R C → Type 0
  IsWaiting s =
      Waiting id d Loss (record_paths plan) (asset_paths plan) ((id, own) ∷ []) dropped unused fresh
        s

  abbrev OutcomeOf : ℕ → List Undo → Disk R C → Type 0
  OutcomeOf n undos s =
      Outcome id d Loss (record_paths plan) (asset_paths plan) ((id, own) ∷ []) dropped unused fresh
        n undos s

  started-IsWaiting : IsWaiting (record d { journals = insert id own d.journals })
  unfolding insert
  started-IsWaiting = (
    record { of_configs = λ p. inl refl; of_assets = λ p. inl refl; of_staging = λ t n. refl },
    ap (λ m. insert id own m) no_journal,
  )

  spared :
      (torn : Torn)
      → (contains id torn.markers ≡ true → lost ≡ true)
      → (p : FilePath) → contains p (asset_paths plan) ≡ true
      → contains id torn.markers ≡ true
      → Loss p
  spared torn keeps p c gone = (keeps gone, c)

  cleanup-OutcomeOf :
      (torn : Torn) (keeps : contains id torn.markers ≡ true → lost ≡ true) (s : Disk R C)
      → IsWaiting s
      → (n : ℕ) → OutcomeOf n (cleanup_undos own) (undo_up_to n torn (cleanup_undos own) s)
  unfolding cleanup_undos
  cleanup-OutcomeOf torn keeps s (h, j) n =
      deletes-Outcome id d Loss (record_paths plan) (asset_paths plan) ((id, own) ∷ []) dropped
        unused fresh torn (spared torn keeps) _ (asset_paths plan) (λ p c. c)
        (settles-Outcome id d Loss (record_paths plan) (asset_paths plan) ((id, own) ∷ []) dropped
          unused fresh torn (spared torn keeps) _
          (drops-Outcome id d Loss (record_paths plan) (asset_paths plan) ((id, own) ∷ []) dropped
            unused fresh torn (spared torn keeps))
          (asset_paths plan) (λ p c. c))
        own.records (λ p c. c) (absent_records plan d free_ids) s h j n

  among_all :
      (s : Disk R C)
      → Pending id d Loss [] (asset_paths plan) s
      → Pending id d Loss (record_paths plan) (asset_paths plan) s
  among_all s h = record {
    of_configs = λ p. elim (h.of_configs p) [ inl same ↦ inl same | inr among ↦ cc ];
    of_assets = h.of_assets;
    of_staging = h.of_staging;
  }

  rollback-OutcomeOf :
      (torn : Torn) (keeps : contains id torn.markers ≡ true → lost ≡ true) (published : Bool)
      (s : Disk R C)
      → IsWaiting s
      → (n : ℕ)
      → OutcomeOf n
          (rollback_undos published own)
          (undo_up_to n torn (rollback_undos published own) s)
  unfolding rollback_undos
  rollback-OutcomeOf torn keeps false s w n = cleanup-OutcomeOf torn keeps s w n
  rollback-OutcomeOf torn keeps true s (h, j) n =
      deletes-Outcome id d Loss (record_paths plan) (asset_paths plan) ((id, own) ∷ []) dropped
        unused fresh torn (spared torn keeps) (cleanup_undos own) (asset_paths plan) (λ p c. c)
        (λ s1 h1 j1. cleanup-OutcomeOf torn keeps s1 (among_all s1 h1, j1)) own.records (λ p c. c)
        (absent_records plan d free_ids) s h j n

  one_journal : (s : Disk R C) → IsWaiting s → recovery_undos s.journals ≡ cleanup_undos own
  unfolding recovery_undos
  one_journal s w = ap (λ m. recovery_undos m) w.1 ∙ append-nil (cleanup_undos own)

  -- A cut after which no marker is lost but where one may be.
  abbrev Spares : Cut → Type 0
  Spares cut = contains id cut.torn.markers ≡ true → lost ≡ true

  recover-IsWaiting :
      (s : Disk R C)
      → IsWaiting s
      → (cut : Cut) → Spares cut
      → OutcomeOf cut.changes (cleanup_undos own) (recover_up_to cut s)
  unfolding recover_up_to
  recover-IsWaiting s w cut keeps =
      subst
        (λ undos.
          OutcomeOf cut.changes (cleanup_undos own) (undo_up_to cut.changes cut.torn undos s))
        (sym (one_journal s w)) (cleanup-OutcomeOf cut.torn keeps s w cut.changes)

  no_undos : (s : Disk R C) → Restored id d Loss s → recovery_undos s.journals ≡ []
  unfolding recovery_undos
  no_undos s same = ap (λ m. recovery_undos m) same.no_journal

  recover-Restored :
      (s : Disk R C) → Restored id d Loss s → (cut : Cut) → Restored id d Loss (recover_up_to cut s)
  unfolding recover_up_to undo_up_to
  recover-Restored s same cut =
      subst (λ undos. Restored id d Loss (undo_up_to cut.changes cut.torn undos s))
        (sym (no_undos s same)) same

  -- What a cut leaves: the import still to be undone, or nothing of it.
  abbrev Left : Disk R C → Type 0
  Left s = IsWaiting s ⊎ Restored id d Loss s

  OutcomeOf-Left : (n : ℕ) (undos : List Undo) (s : Disk R C) → OutcomeOf n undos s → Left s
  OutcomeOf-Left n undos s (inl (w, lt)) = inl w
  OutcomeOf-Left n undos s (inr same) = inr same

  whole-Restored :
      (undos : List Undo) (s : Disk R C) → OutcomeOf (length undos) undos s → Restored id d Loss s
  whole-Restored undos s (inl (w, lt)) = absurd (omega (arith, lt))
  whole-Restored undos s (inr same) = same

  recover-Left : (s : Disk R C) → Left s → (cut : Cut) → Spares cut → Left (recover_up_to cut s)
  recover-Left s (inl w) cut keeps =
      OutcomeOf-Left cut.changes (cleanup_undos own) _ (recover-IsWaiting s w cut keeps)
  recover-Left s (inr same) cut keeps = inr (recover-Restored s same cut)

  recover_often-Left :
      (cuts : List Cut) (s : Disk R C)
      → (loses_marker id cuts ≡ true → lost ≡ true)
      → Left s
      → Left (recover_often cuts s)
  unfolding recover_often
  recover_often-Left [] s keeps l = l
  recover_often-Left (cut ∷ cuts) s keeps l =
      recover_often-Left cuts (recover_up_to cut s) (λ e. keeps (ground (arith, e)))
        (recover-Left s l cut (λ e. keeps (rw e (refl))))

  recovered : (s : Disk R C) → Left s → Restored id d Loss (recover s)
  unfolding recover undo_all
  recovered s (inl w) =
      let undos = cleanup_undos own in
      let whole : Torn = record { markers = []; files = []; folders = [] } in
      subst (λ us. Restored id d Loss (undo_all us s)) (sym (one_journal s w))
        (subst (λ next. Restored id d Loss next) (undo_up_to-length whole undos s)
          (whole-Restored undos _ (cleanup-OutcomeOf whole (λ e. cc) s w (length undos))))
  recovered s (inr same) =
      subst (λ us. Restored id d Loss (undo_all us s)) (sym (no_undos s same)) same

module _ {R C : Type 0} (id : String) (plan : PreparedImport R C) (d : Disk R C)
    (no_journal : d.journals ≡ []) (unused : lookup id d.staging ≡ none)
    (fresh : (path : FilePath) (folder : Folder C)
      → lookup path d.assets ≡ some folder
      → contains id folder.claims ≡ false)
    (free_ids : clashes plan d ≡ false) where
  -- There is no journal, no staging of the import and no folder that it claims, and no record of its ids. It
  -- writes its journal and makes any number of its moves, of which one may raise, and stops on the way of the
  -- next, if that stages an asset, with some of its files missing, but does not commit; its
  -- handler, for records that were published or not, is cut off, and so are any number of recoveries, each
  -- after any number of changes and on the way of the next, if that is a removal. Then one whole recovery
  -- leaves the disk with the same files of records and the same staging as before, and no journal. Each folder
  -- of an asset is as before too, unless a removal stopped after the import's marker was gone: then a folder
  -- may be left, without the marker, at a path of the import's assets where nothing was.
  pub recover-undoes :
      (n : ℕ) (missing : List String) (handler : Cut) (published : Bool) (cuts : List Cut)
      → Restored id d
          (λ path.
            (loses_marker id (handler ∷ cuts) ≡ true) × (contains path (asset_paths plan) ≡ true))
          (recover (
            recover_often cuts (
              undo_up_to handler.changes handler.torn
                (rollback_undos published (journal_of id plan prepared))
                (run id
                  (write_journal (journal_of id plan prepared)
                    ∷ stopped_moves n missing (import_moves plan))
                  d))))
  unfolding run move
  recover-undoes n missing handler published cuts =
      let journal = journal_of id plan prepared in
      let lost = loses_marker id (handler ∷ cuts) in
      let loss = Loss id plan d no_journal unused fresh free_ids lost in
      let started = record d { journals = insert id journal d.journals } in
      let stopped = run id (stopped_moves n missing (import_moves plan)) started in
      let w =
        stopped_moves-Open id d loss plan ((id, journal) ∷ []) n missing started
          (started-IsWaiting id plan d no_journal unused fresh free_ids lost) in
      let undos = rollback_undos published journal in
      let handled = undo_up_to handler.changes handler.torn undos stopped in
      let left =
        OutcomeOf-Left id plan d no_journal unused fresh free_ids lost handler.changes undos handled
          (rollback-OutcomeOf id plan d no_journal unused fresh free_ids lost handler.torn
            (λ e. rw e (refl)) published stopped w handler.changes) in
      recovered id plan d no_journal unused fresh free_ids lost (recover_often cuts handled) (
        recover_often-Left id plan d no_journal unused fresh free_ids lost cuts handled
          (λ e. ground (arith, e)) left)
