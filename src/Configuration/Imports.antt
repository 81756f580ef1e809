-- ===== src/Configuration/Imports.antt =====
-- configuration/bundles/transactions.py and journal.py: the import of a bundle as changes of the disk, each
-- of which happens as a whole or raises, with the journal by which a crash is recovered. Only the staging of
-- an asset and `shutil.rmtree` may stop on the way. `R` is the type of a record's file and `C` that of a file in an
-- asset's folder. A path is its folder and its name.
pub mod Cleanup
pub mod Undone
pub mod Forward
pub mod Staging
pub mod Moves
pub mod Stopped
pub mod Removals
pub mod Recovered
pub mod Atomic
pub mod Cleaned
pub mod Committed
pub mod Samples
use deepagent_shell.Prelude.{
  ℕ, zero, suc, String, Bool, true, false, not, List, [], ◌∷◌, ◌++◌, Option, none, some, Dict,
  lookup, insert, remove, contains, any, keep, take, map, text_append, string_eq, pair_eq,
  if◌then◌else◌, ◌==◌, drop,
}

abbrev pub FilePath : Type 0
FilePath = String × String

-- An asset's folder: the transactions whose marker stands in it, and its other files by their paths in it.
pub record Folder (C : Type 0) : Type 0 where
  pub claims : List String
  pub content : Dict String C

pub data JournalState : Type 0 where
  prepared committed : JournalState

pub data ConfigurationEntityKind : Type 0 where
  component main_agent subagent workflow : ConfigurationEntityKind

pub record JournalRecord : Type 0 where
  pub kind : ConfigurationEntityKind
  pub component_type : String
  pub target_id : String

-- `packages` has the packages and the skill packages, by their paths.
pub record ImportJournal : Type 0 where
  pub transaction_id : String
  pub state : JournalState
  pub records : List JournalRecord
  pub packages : List FilePath

-- `configs` are the files of records, `assets` the folders below `python_package_instances` and
-- `skill_package_instances`.
pub record Disk (R C : Type 0) : Type 0 where
  pub configs : Dict FilePath R
  pub assets : Dict FilePath (Folder C)
  pub staging : Dict String (Dict FilePath (Folder C))
  pub journals : Dict String ImportJournal

abbrev pub folder_of : ConfigurationEntityKind → String → String
folder_of ConfigurationEntityKind.component type = text_append "components/" type
folder_of ConfigurationEntityKind.main_agent type = "agents/main"
folder_of ConfigurationEntityKind.subagent type = "agents/subagent"
folder_of ConfigurationEntityKind.workflow type = "workflows"

-- `_configuration_path`, without the ending `.yaml`.
abbrev pub configuration_path : JournalRecord → FilePath
configuration_path r = (folder_of r.kind r.component_type, r.target_id)

-- `PreparedImport`, as far as the commit reads it: the records with their files, in which a workflow is
-- not enabled, and the assets with their content.
pub record PreparedImport (R C : Type 0) : Type 0 where
  pub target_entities : List (JournalRecord × R)
  pub plans : List (FilePath × Dict String C)

module _ {R C : Type 0} where
  abbrev pub journal_of : String → PreparedImport R C → JournalState → ImportJournal
  journal_of id plan state = record {
    transaction_id = id;
    state = state;
    records = map (λ entity. entity.0) plan.target_entities;
    packages = map (λ asset. asset.0) plan.plans;
  }

-- A change of the disk in the course of a commit.
pub data Move (R C : Type 0) : Type 0 where
  write_journal : ImportJournal → Move R C
  make_staging : Move R C
  materialize : FilePath → Dict String C → Move R C
  claim publish : FilePath → Move R C
  write_config : FilePath → R → Move R C

infixl 5 ◌>>=◌
abbrev pub ◌>>=◌ : {A B : Type 0} → Option A → (A → Option B) → Option B
none >>= f = none
some a >>= f = f a

-- `claim_import_asset`
abbrev pub claimed : {C : Type 0} → String → Folder C → Option (Folder C)
claimed id folder =
    if contains id folder.claims then none else some (record folder { claims = id ∷ folder.claims })

-- The test before a directory is made or a folder is renamed.
abbrev pub free : {A : Type 0} → Option A → Option (Unit {0})
free none = some tt
free (some there) = none

module _ {R C : Type 0} (id : String) where
  abbrev pub put_tree : Dict FilePath (Folder C) → Disk R C → Disk R C
  put_tree tree disk = record disk { staging = insert id tree disk.staging }

  -- `none` is an exception, which leaves the disk as it was.
  unfoldable pub move : Move R C → Disk R C → Option (Disk R C)
  unfolding lookup insert remove
  move (write_journal journal) disk =
      some (record disk { journals = insert id journal disk.journals })
  move make_staging disk = do unused ← free (lookup id disk.staging); some (put_tree [] disk)
  move (materialize path content) disk = do
    tree ← lookup id disk.staging
    some (put_tree (insert path (record { claims = []; content = content }) tree) disk)
  move (claim path) disk = do
    tree ← lookup id disk.staging
    folder ← lookup path tree
    marked ← claimed id folder
    some (put_tree (insert path marked tree) disk)
  move (publish path) disk = do
    unused ← free (lookup path disk.assets)
    tree ← lookup id disk.staging
    folder ← lookup path tree
    some (record (put_tree (remove path tree) disk) { assets = insert path folder disk.assets })
  move (write_config path value) disk =
      some (record disk { configs = insert path value disk.configs })

  -- The moves up to the first that raises.
  unfoldable pub run : List (Move R C) → Disk R C → Disk R C
  unfolding move
  run [] disk = disk
  run (m ∷ moves) disk = elim (move m disk) [ none ↦ disk | some next ↦ run moves next ]

-- The moves of `commit_prepared_import` between the two writes of the journal.
unfoldable pub import_moves : {R C : Type 0} → PreparedImport R C → List (Move R C)
import_moves plan =
    make_staging
    ∷ (map (λ asset. materialize asset.0 asset.1) plan.plans
        ++ (map (λ asset. claim asset.0) plan.plans
            ++ (map (λ asset. publish asset.0) plan.plans
                ++ map (λ entity. write_config (configuration_path entity.0) entity.1)
                    plan.target_entities)))

-- The move on the way of which an import stops. Only a materialization is seen halfway: some files of the asset
-- are not staged.
abbrev pub partly_moved : {R C : Type 0} → List String → List (Move R C) → List (Move R C)
partly_moved missing [] = []
partly_moved missing (materialize path content ∷ moves) =
    materialize path (keep (λ file. not (contains file.0 missing)) content) ∷ []
partly_moved missing (write_journal journal ∷ moves) = []
partly_moved missing (make_staging ∷ moves) = []
partly_moved missing (claim path ∷ moves) = []
partly_moved missing (publish path ∷ moves) = []
partly_moved missing (write_config path value ∷ moves) = []

-- The moves of an import that stops after `n` of them, on the way of the next.
unfoldable pub stopped_moves : {R C : Type 0} → ℕ → List String → List (Move R C) → List (Move R C)
stopped_moves n missing moves = take n moves ++ partly_moved missing (drop n moves)

module _ {R C : Type 0} where
  -- The ids of the records that are there, against those of an import.
  unfoldable pub clashes : PreparedImport R C → Disk R C → Bool
  clashes plan disk =
      any (λ entity. contains entity.0.target_id (map (λ file. file.0.1) disk.configs))
        plan.target_entities
