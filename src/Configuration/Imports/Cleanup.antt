-- ===== src/Configuration/Imports/Cleanup.antt =====
-- journal.py: the cleanup after an import and the recovery after a crash, which may be cut off at any change and
-- on the way of a removal.
use deepagent_shell.Prelude.{
  ℕ, zero, suc, String, Bool, not, List, [], ◌∷◌, ◌++◌, Option, none, some, Dict, lookup, insert,
  remove, contains, any, keep, map, string_eq, pair_eq, if◌then◌else◌, ◌==◌,
}
use deepagent_shell.Configuration.Imports.{
  FilePath, Folder, JournalState, JournalRecord, ImportJournal, Disk, configuration_path,
}

-- A change of the disk in the course of `cleanup_import_journal`.
pub data Undo : Type 0 where
  delete_config : FilePath → Undo
  settle : String → JournalState → FilePath → Undo
  drop_staging drop_journal : String → Undo

-- What becomes of a claimed folder: it goes with a prepared import, and else only its marker does.
abbrev pub settled_folder :
    {C : Type 0}
    → String
    → JournalState
    → FilePath
    → Folder C
    → Dict FilePath (Folder C)
    → Dict FilePath (Folder C)
settled_folder id JournalState.prepared path folder assets = remove path assets
settled_folder id JournalState.committed path folder assets =
    insert path (record folder { claims = keep (λ owner. not (owner == id)) folder.claims }) assets

-- `_cleanup_claimed_asset`
abbrev pub settled :
    {C : Type 0}
    → String
    → JournalState
    → FilePath
    → Option (Folder C)
    → Dict FilePath (Folder C)
    → Dict FilePath (Folder C)
settled id state path none assets = assets
settled id state path (some folder) assets =
    if contains id folder.claims then settled_folder id state path folder assets else assets

module _ {R C : Type 0} where
  unfoldable pub undo : Undo → Disk R C → Disk R C
  unfolding lookup insert remove
  undo (delete_config path) disk = record disk { configs = remove path disk.configs }
  undo (settle id state path) disk = record disk {
    assets = settled id state path (lookup path disk.assets) disk.assets;
  }
  undo (drop_staging id) disk = record disk { staging = remove id disk.staging }
  undo (drop_journal id) disk = record disk { journals = remove id disk.journals }

  unfoldable pub undo_all : List Undo → Disk R C → Disk R C
  unfolding undo
  undo_all [] disk = disk
  undo_all (u ∷ undos) disk = undo_all undos (undo u disk)

-- What `shutil.rmtree` has removed when it stops on the way, by a crash or an `OSError`: the markers of some
-- transactions and some files of a folder, and whole folders of a staging. It goes by the order in which the
-- system lists a directory, so a marker may go first.
pub record Torn : Type 0 where
  pub markers : List String
  pub files : List String
  pub folders : List FilePath

abbrev pub torn_folder : {C : Type 0} → Torn → Folder C → Folder C
torn_folder torn folder = record {
  claims = keep (λ owner. not (contains owner torn.markers)) folder.claims;
  content = keep (λ file. not (contains file.0 torn.files)) folder.content;
}

-- `_cleanup_claimed_asset` for a prepared import, of which the removal stops.
abbrev pub torn_asset :
    {C : Type 0}
    → String
    → Torn
    → FilePath
    → Option (Folder C)
    → Dict FilePath (Folder C)
    → Dict FilePath (Folder C)
torn_asset id torn path none assets = assets
torn_asset id torn path (some folder) assets =
    if contains id folder.claims then insert path (torn_folder torn folder) assets else assets

-- `_remove_owned_tree` of which the removal stops.
abbrev pub torn_staging :
    {C : Type 0}
    → String
    → Torn
    → Option (Dict FilePath (Folder C))
    → Dict String (Dict FilePath (Folder C))
    → Dict String (Dict FilePath (Folder C))
torn_staging id torn none staging = staging
torn_staging id torn (some tree) staging =
    insert id
      (map (λ item. (item.0, torn_folder torn item.1))
        (keep (λ item. not (contains item.0 torn.folders)) tree))
      staging

module _ {R C : Type 0} where
  -- A change that stops on the way. Those that are no `shutil.rmtree` have not begun.
  unfoldable pub undo_partly : Torn → Undo → Disk R C → Disk R C
  unfolding lookup insert
  undo_partly torn (delete_config path) disk = disk
  undo_partly torn (settle id JournalState.prepared path) disk = record disk {
    assets = torn_asset id torn path (lookup path disk.assets) disk.assets;
  }
  undo_partly torn (settle id JournalState.committed path) disk = disk
  undo_partly torn (drop_staging id) disk = record disk {
    staging = torn_staging id torn (lookup id disk.staging) disk.staging;
  }
  undo_partly torn (drop_journal id) disk = disk

-- Where changes are cut off: after `changes` of them, on the way of the next.
pub record Cut : Type 0 where
  pub changes : ℕ
  pub torn : Torn

-- Whether one of some cuts comes after the marker of a transaction is gone.
abbrev pub loses_marker : String → List Cut → Bool
loses_marker id cuts = any (λ cut. contains id cut.torn.markers) cuts

module _ {R C : Type 0} where
  unfoldable pub undo_up_to : ℕ → Torn → List Undo → Disk R C → Disk R C
  unfolding undo undo_partly
  undo_up_to n torn [] disk = disk
  undo_up_to zero torn (u ∷ undos) disk = undo_partly torn u disk
  undo_up_to (suc n) torn (u ∷ undos) disk = undo_up_to n torn undos (undo u disk)

abbrev pub record_undos : List JournalRecord → JournalState → List Undo
record_undos records JournalState.prepared = map (λ r. delete_config (configuration_path r)) records
record_undos records JournalState.committed = []

-- `cleanup_import_journal`
unfoldable pub cleanup_undos : ImportJournal → List Undo
cleanup_undos journal =
    record_undos journal.records journal.state
    ++ (map (λ path. settle journal.transaction_id journal.state path) journal.packages
        ++ drop_staging journal.transaction_id ∷ drop_journal journal.transaction_id ∷ [])

-- The handler of a commit that failed: records that are published go first.
unfoldable pub rollback_undos : Bool → ImportJournal → List Undo
unfolding cleanup_undos
rollback_undos published journal =
    record_undos journal.records
      (if published then JournalState.prepared else JournalState.committed)
    ++ cleanup_undos journal

-- `recover_configuration_imports` on one repository, whose journals are valid and bear their own names.
unfoldable pub recovery_undos : Dict String ImportJournal → List Undo
unfolding cleanup_undos
recovery_undos [] = []
recovery_undos ((name, journal) ∷ journals) = cleanup_undos journal ++ recovery_undos journals

module _ {R C : Type 0} where
  -- A recovery that is cut off.
  unfoldable pub recover_up_to : Cut → Disk R C → Disk R C
  unfolding undo_up_to recovery_undos
  recover_up_to cut disk = undo_up_to cut.changes cut.torn (recovery_undos disk.journals) disk

  unfoldable pub recover : Disk R C → Disk R C
  unfolding undo_all recovery_undos
  recover disk = undo_all (recovery_undos disk.journals) disk

  -- Recoveries each of which is cut off.
  unfoldable pub recover_often : List Cut → Disk R C → Disk R C
  unfolding recover_up_to
  recover_often [] disk = disk
  recover_often (cut ∷ cuts) disk = recover_often cuts (recover_up_to cut disk)
