-- ===== src/Configuration/Imports/Staging.antt =====
-- transactions.py: the staged folders of an import, and all its moves.
use deepagent_shell.Prelude.{
  ℕ, zero, suc, String, true, false, List, [], ◌∷◌, ◌++◌, Option, none, some, Dict, lookup, insert,
  remove, contains, take, map, string_eq, pair_eq, if◌then◌else◌, ◌==◌, ◌≡◌, ◌⊎◌, refl, sym, ◌∙◌,
  ap, subst, inl, inr, Bool-cases, beq-cases, beq_refl, lookup-insert, All,
}
use mathlib.Core.Option.{some-injective}
use deepagent_shell.Configuration.Imports.{
  FilePath, Folder, ImportJournal, Disk, Move, make_staging, materialize, claim, publish, ◌>>=◌,
  claimed, free, put_tree, move, run,
}
use deepagent_shell.Configuration.Imports.Undone.{
  insert-other, remove-other, remove_self, later_among,
}
use deepagent_shell.Configuration.Imports.Forward.{
  insert_self, among_self, run_step, Staged, Open, put_tree-Open, publish-Open,
}

pub bind-some :
    {A B : Type 0} (o : Option A) (f : A → Option B) (b : B)
    → (o >>= f) ≡ some b
    → (a : A) × (o ≡ some a) × (f a ≡ some b)
bind-some none f b h = cc
bind-some (some a) f b h = (a, refl, h)

free-some : {A : Type 0} (o : Option A) (u : Unit {0}) → free o ≡ some u → o ≡ none
free-some none u h = refl
free-some (some a) u h = cc

claimed-some :
    {C : Type 0} (id : String) (folder marked : Folder C)
    → claimed id folder ≡ some marked
    → contains id marked.claims ≡ true
claimed-some id folder marked h = elim (Bool-cases (contains id folder.claims)) [
  | inl e ↦ cc (rw e at h)
  | inr e ↦
      subst (λ f. contains id f.claims ≡ true)
        (some-injective (record folder { claims = id ∷ folder.claims }) marked (rw e at h))
        (rw (beq_refl id) (refl))
]

module _ {R C : Type 0} (id : String) where
  tree_put :
      (tree found : Dict FilePath (Folder C)) (s : Disk R C)
      → lookup id (put_tree id tree s).staging ≡ some found
      → tree ≡ found
  tree_put tree found s h = some-injective tree found (
      sym (
        lookup-insert id id tree s.staging
        ∙ ap (λ b. if b then some tree else lookup id s.staging) (beq_refl id))
      ∙ h)

  make_staging-Staged :
      (unclaimed : List FilePath) (s : Disk R C) → Staged id unclaimed (put_tree id [] s)
  unfolding lookup
  make_staging-Staged unclaimed s found h path folder k =
      cc (subst (λ t. lookup path t ≡ some folder) (sym (tree_put [] found s h)) k)

  insert-Staged :
      (unclaimed rest : List FilePath) (path : FilePath) (folder : Folder C)
      (tree : Dict FilePath (Folder C)) (s : Disk R C)
      → lookup id s.staging ≡ some tree
      → ((contains id folder.claims ≡ true) ⊎ (contains path rest ≡ true))
      → ((p : FilePath)
          → (path == p) ≡ false
          → contains p unclaimed ≡ true
          → contains p rest ≡ true)
      → Staged id unclaimed s
      → Staged id rest (put_tree id (insert path folder tree) s)
  insert-Staged unclaimed rest path folder tree s t own shrinks st found h p f k =
      let here =
        subst (λ m. lookup p m ≡ some f) (sym (tree_put (insert path folder tree) found s h)) k in
      elim (beq-cases path p) [
        | inl e ↦
            let same = some-injective folder f (sym (insert_self path p folder tree e) ∙ here) in
            elim own [
              | inl c ↦ inl (subst (λ g. contains id g.claims ≡ true) same c)
              | inr among ↦ inr (among_self path p rest e among)
            ]
        | inr n ↦ elim (st tree t p f (sym (insert-other path p folder tree n) ∙ here)) [
          | inl c ↦ inl c
          | inr among ↦ inr (shrinks p n among)
        ]
      ]

  remove-Staged :
      (unclaimed : List FilePath) (path : FilePath) (tree : Dict FilePath (Folder C)) (s : Disk R C)
      → lookup id s.staging ≡ some tree
      → Staged id unclaimed s
      → Staged id unclaimed (put_tree id (remove path tree) s)
  remove-Staged unclaimed path tree s t st found h p f k =
      let here = subst (λ m. lookup p m ≡ some f) (sym (tree_put (remove path tree) found s h)) k in
      elim (beq-cases path p) [
        | inl e ↦ cc (sym (remove_self path p tree e) ∙ here)
        | inr n ↦ st tree t p f (sym (remove-other path p tree n) ∙ here)
      ]

module _ {R C : Type 0} (id : String) (d : Disk R C) (L : FilePath → Type 0)
    (records assets : List FilePath) (journals : Dict String ImportJournal) where
  abbrev pub OpenNow : Disk R C → Type 0
  OpenNow s = Open id d L records assets journals s

  -- However far some moves go, the import can be undone.
  abbrev pub Safe : List (Move R C) → Disk R C → Type 0
  Safe moves s = (n : ℕ) → OpenNow (run id (take n moves) s)

  publish-next :
      (path : FilePath) (s next : Disk R C)
      → contains path assets ≡ true
      → move id (publish path) s ≡ some next
      → OpenNow s
      → Staged id [] s
      → OpenNow next × Staged id [] next
  unfolding move
  publish-next path s next c e o st =
      let (u, unused, e1) = bind-some (free (lookup path s.assets)) _ next e in
      let (tree, t, e2) = bind-some (lookup id s.staging) _ next e1 in
      let (folder, f, e3) = bind-some (lookup path tree) _ next e2 in
      let base = put_tree id (remove path tree) s in
      let owned : contains id folder.claims ≡ true = elim (st tree t path folder f) [
        | inl claims ↦ claims
        | inr none_left ↦ cc
      ] in
      subst (λ x. OpenNow x × Staged id [] x)
        (some-injective (record base { assets = insert path folder s.assets }) next e3)
        (
          publish-Open id d L records assets journals path folder base c owned
              (free-some (lookup path s.assets) u unused)
              (put_tree-Open id d L records assets journals (remove path tree) s o),
          remove-Staged id [] path tree s t st,
        )

  claim-next :
      (path : FilePath) (rest : List FilePath) (s next : Disk R C)
      → move id (claim path) s ≡ some next
      → OpenNow s
      → Staged id (path ∷ rest) s
      → OpenNow next × Staged id rest next
  unfolding move
  claim-next path rest s next e o st =
      let (tree, t, e1) = bind-some (lookup id s.staging) _ next e in
      let (folder, f, e2) = bind-some (lookup path tree) _ next e1 in
      let (marked, m, e3) = bind-some (claimed id folder) _ next e2 in
      subst (λ x. OpenNow x × Staged id rest x)
        (some-injective (put_tree id (insert path marked tree) s) next e3)
        (
          put_tree-Open id d L records assets journals (insert path marked tree) s o,
          insert-Staged id (path ∷ rest) rest path marked tree s t
              (inl (claimed-some id folder marked m)) (λ p n c. later_among p path rest n c) st,
        )

  materialize-next :
      (path : FilePath) (content : Dict String C) (s next : Disk R C)
      → contains path assets ≡ true
      → move id (materialize path content) s ≡ some next
      → OpenNow s
      → Staged id assets s
      → OpenNow next × Staged id assets next
  unfolding move
  materialize-next path content s next c e o st =
      let (tree, t, e1) = bind-some (lookup id s.staging) _ next e in
      let folder : Folder C = record { claims = []; content = content } in
      subst (λ x. OpenNow x × Staged id assets x)
        (some-injective (put_tree id (insert path folder tree) s) next e1)
        (
          put_tree-Open id d L records assets journals (insert path folder tree) s o,
          insert-Staged id assets assets path folder tree s t (inr c) (λ p n k. k) st,
        )

  pub make_staging-next :
      (s next : Disk R C)
      → move id make_staging s ≡ some next
      → OpenNow s
      → OpenNow next × Staged id assets next
  unfolding move
  make_staging-next s next e o =
      let (u, unused, e1) = bind-some (free (lookup id s.staging)) _ next e in
      subst (λ x. OpenNow x × Staged id assets x) (some-injective (put_tree id [] s) next e1)
        (put_tree-Open id d L records assets journals [] s o, make_staging-Staged id assets s)

  pub publishes-Open :
      (after : List (Move R C))
      → ((s : Disk R C) → OpenNow s → Safe after s)
      → (plans : List (FilePath × Dict String C))
      → All (λ plan. contains plan.0 assets ≡ true) plans
      → (s : Disk R C) → OpenNow s
      → Staged id [] s
      → Safe (map (λ plan. publish plan.0) plans ++ after) s
  publishes-Open after k [] h s o st n = k s o n
  publishes-Open after k (plan ∷ plans) h s o st zero = unfold run in o
  publishes-Open after k (plan ∷ plans) h s o st (suc n) =
      run_step id OpenNow (publish plan.0) _ s o (λ next e.
        let (o', st') = publish-next plan.0 s next h.0 e o st in
        publishes-Open after k plans h.1 next o' st' n)

  pub claims-Open :
      (after : List (Move R C))
      → ((s : Disk R C) → OpenNow s → Staged id [] s → Safe after s)
      → (plans : List (FilePath × Dict String C)) (s : Disk R C) → OpenNow s
      → Staged id (map (λ plan. plan.0) plans) s
      → Safe (map (λ plan. claim plan.0) plans ++ after) s
  claims-Open after k [] s o st n = k s o st n
  claims-Open after k (plan ∷ plans) s o st zero = unfold run in o
  claims-Open after k (plan ∷ plans) s o st (suc n) =
      run_step id OpenNow (claim plan.0) _ s o (λ next e.
        let (o', st') = claim-next plan.0 (map (λ p. p.0) plans) s next e o st in
        claims-Open after k plans next o' st' n)

  pub materializes-Open :
      (after : List (Move R C))
      → ((s : Disk R C) → OpenNow s → Staged id assets s → Safe after s)
      → (plans : List (FilePath × Dict String C))
      → All (λ plan. contains plan.0 assets ≡ true) plans
      → (s : Disk R C) → OpenNow s
      → Staged id assets s
      → Safe (map (λ plan. materialize plan.0 plan.1) plans ++ after) s
  materializes-Open after k [] h s o st n = k s o st n
  materializes-Open after k (plan ∷ plans) h s o st zero = unfold run in o
  materializes-Open after k (plan ∷ plans) h s o st (suc n) =
      run_step id OpenNow (materialize plan.0 plan.1) _ s o (λ next e.
        let (o', st') = materialize-next plan.0 plan.1 s next h.0 e o st in
        materializes-Open after k plans h.1 next o' st' n)
