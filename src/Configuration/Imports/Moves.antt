-- ===== src/Configuration/Imports/Moves.antt =====
-- transactions.py: all the moves of an import.
use deepagent_shell.Prelude.{
  ℕ, zero, suc, String, true, List, [], ◌∷◌, Dict, contains, take, map, string_eq, pair_eq, ◌≡◌,
  refl, ap, subst, arith, beq_refl, All, All-map,
}
use deepagent_shell.Configuration.Imports.{
  FilePath, JournalRecord, ImportJournal, Disk, configuration_path, PreparedImport, make_staging,
  run, import_moves,
}
use deepagent_shell.Configuration.Imports.Forward.{run_step, Open, writes-Open}
use deepagent_shell.Configuration.Imports.Staging.{
  make_staging-next, materializes-Open, claims-Open, publishes-Open,
}

-- Each name of some files is one of all of them.
named_in :
    {A : Type 0} (name : A → FilePath) (items : List A)
    → All (λ item. contains (name item) (map name items) ≡ true) items
named_in name [] = tt
named_in name (item ∷ items) = (
  rw (beq_refl (name item)) (refl),
  All-map (λ later c. ground (arith, c)) items (named_in name items),
)

map_twice :
    {R : Type 0} (entities : List (JournalRecord × R))
    → map (λ entity. configuration_path entity.0) entities
      ≡ map configuration_path (map (λ entity. entity.0) entities)
map_twice [] = refl
map_twice (entity ∷ entities) =
    ap (λ paths. configuration_path entity.0 ∷ paths) (map_twice entities)

abbrev pub record_paths : {R C : Type 0} → PreparedImport R C → List FilePath
record_paths plan = map configuration_path (map (λ entity. entity.0) plan.target_entities)

abbrev pub asset_paths : {R C : Type 0} → PreparedImport R C → List FilePath
asset_paths plan = map (λ asset. asset.0) plan.plans

module _ {R C : Type 0} (id : String) (d : Disk R C) (L : FilePath → Type 0)
    (plan : PreparedImport R C) (journals : Dict String ImportJournal) where
  -- However far the moves of an import go, it can be undone.
  pub import_moves-Open :
      (n : ℕ) (s : Disk R C)
      → Open id d L (record_paths plan) (asset_paths plan) journals s
      → Open id d L
          (record_paths plan)
          (asset_paths plan)
          journals
          (run id (take n (import_moves plan)) s)
  unfolding import_moves
  import_moves-Open zero s o = unfold run in o
  import_moves-Open (suc n) s o =
      let among = named_in (λ (asset : FilePath × Dict String C). asset.0) plan.plans in
      run_step id (Open id d L (record_paths plan) (asset_paths plan) journals) make_staging _ s o
        (λ next e.
          let (o', st) =
            make_staging-next id d L (record_paths plan) (asset_paths plan) journals s next e o in
          materializes-Open id d L (record_paths plan) (asset_paths plan) journals _
            (λ s1 o1 st1.
              claims-Open id d L (record_paths plan) (asset_paths plan) journals _
                (λ s2 o2 st2.
                  publishes-Open id d L (record_paths plan) (asset_paths plan) journals _
                    (λ s3 o3 m.
                      writes-Open id d L (record_paths plan) (asset_paths plan) journals
                        plan.target_entities
                        (subst
                          (λ paths.
                            All (λ entity. contains (configuration_path entity.0) paths ≡ true)
                              plan.target_entities)
                          (map_twice plan.target_entities)
                          (named_in (λ (entity : JournalRecord × R). configuration_path entity.0)
                            plan.target_entities))
                        m s3 o3)
                    plan.plans among s2 o2 st2)
                plan.plans s1 o1 st1)
            plan.plans among next o' st n)
