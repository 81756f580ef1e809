-- ===== src/Configuration/Imports/Undone.antt =====
-- transactions.py and journal.py: an import that is not committed leaves nothing.
use deepagent_shell.Prelude.{
  String, true, false, List, ◌∷◌, Option, none, some, Dict, lookup, insert, remove, contains,
  string_eq, pair_eq, if◌then◌else◌, ◌==◌, ◌≡◌, ◌⊎◌, refl, sym, ◌∙◌, ap, subst, arith, inl, inr,
  Bool-cases, beq-cases, beq_refl, beq_sym, lookup-insert, lookup-remove,
}
use mathlib.Core.Option.{some-injective}
use deepagent_shell.Configuration.Imports.{
  FilePath, Folder, JournalState, prepared, committed, Disk,
}
use deepagent_shell.Configuration.Imports.Cleanup.{
  delete_config, settle, settled, settled_folder, undo,
}

module _ {V : Type 0} where
  pub remove_self : (k j : FilePath) (m : Dict FilePath V) → k ≡ j → lookup j (remove k m) ≡ none
  remove_self k j m e =
      lookup-remove k j m
      ∙ ap (λ b. if b then none else lookup j m) (subst (λ i. (k == i) ≡ true) e (beq_refl k))

  pub remove-other :
      (k j : FilePath) (m : Dict FilePath V) → (k == j) ≡ false → lookup j (remove k m) ≡ lookup j m
  remove-other k j m n = lookup-remove k j m ∙ ap (λ b. if b then none else lookup j m) n

  pub insert-other :
      (k j : FilePath) (v : V) (m : Dict FilePath V)
      → (k == j) ≡ false
      → lookup j (insert k v m) ≡ lookup j m
  insert-other k j v m n = lookup-insert k j v m ∙ ap (λ b. if b then some v else lookup j m) n

pub later_among :
    (p path : FilePath) (paths : List FilePath)
    → (path == p) ≡ false
    → contains p (path ∷ paths) ≡ true
    → contains p paths ≡ true
later_among p path paths n c = ground (arith, n, c, beq_sym path p)

module _ {C : Type 0} (id : String) where
  settled_folder-other :
      (state : JournalState) (path p : FilePath) (folder : Folder C)
      (assets : Dict FilePath (Folder C))
      → (path == p) ≡ false
      → lookup p (settled_folder id state path folder assets) ≡ lookup p assets
  settled_folder-other prepared path p folder assets n = remove-other path p assets n
  settled_folder-other committed path p folder assets n = insert-other path p _ assets n

-- Where a removal went on without the marker, `L` says of which paths, a folder may be left.
module _ {R C : Type 0} (id : String) (d : Disk R C) (L : FilePath → Type 0) where
  -- Whose a folder is that the import has put there.
  abbrev pub Owned : List FilePath → FilePath → Folder C → Type 0
  Owned paths path folder =
      ((contains id folder.claims ≡ true) × (contains path paths ≡ true))
      ⊎ ((contains id folder.claims ≡ false) × L path)

  -- What an asset's folder may be in the course of an import.
  abbrev pub AssetAt : List FilePath → FilePath → Option (Folder C) → Type 0
  AssetAt paths path there =
      (there ≡ lookup path d.assets)
      ⊎ ((folder : Folder C) × (there ≡ some folder)
          × Owned paths path folder
          × (lookup path d.assets ≡ none))

  pub AssetAt-weaker :
      (paths others : List FilePath) (path : FilePath) (there here : Option (Folder C))
      → here ≡ there
      → (contains path paths ≡ true → contains path others ≡ true)
      → AssetAt paths path there
      → AssetAt others path here
  AssetAt-weaker paths others path there here e f (inl same) = inl (e ∙ same)
  AssetAt-weaker paths others path there here e f (inr (folder, t, inl (c, among), gone)) =
      inr (folder, e ∙ t, inl (c, f among), gone)
  AssetAt-weaker paths others path there here e f (inr (folder, t, inr left, gone)) =
      inr (folder, e ∙ t, inr left, gone)

  -- The files are those of `d`, but for records among the first paths, and for assets among the second
  -- where nothing was and which are claimed.
  pub record Pending (records : List FilePath) (assets : List FilePath) (s : Disk R C)
      : Type 0 where
    pub of_configs :
        (path : FilePath)
        → (lookup path s.configs ≡ lookup path d.configs) ⊎ (contains path records ≡ true)
    pub of_assets : (path : FilePath) → AssetAt assets path (lookup path s.assets)
    pub of_staging : (t : String) → (id == t) ≡ false → lookup t s.staging ≡ lookup t d.staging

  pub delete_config-Pending :
      (path : FilePath) (records assets : List FilePath) (s : Disk R C)
      → lookup path d.configs ≡ none
      → Pending (path ∷ records) assets s
      → Pending records assets (undo (delete_config path) s)
  unfolding undo
  delete_config-Pending path records assets s free_path h = record {
    of_configs = λ p. elim (beq-cases path p) [
      | inl e ↦ inl (
          remove_self path p s.configs e ∙ sym (subst (λ q. lookup q d.configs ≡ none) e free_path))
      | inr n ↦ elim (h.of_configs p) [
        | inl same ↦ inl (remove-other path p s.configs n ∙ same)
        | inr among ↦ inr (later_among p path records n among)
      ]
    ];
    of_assets = h.of_assets;
    of_staging = h.of_staging;
  }

  settled-other :
      (state : JournalState) (path p : FilePath) (there : Option (Folder C))
      (assets : Dict FilePath (Folder C))
      → (path == p) ≡ false
      → lookup p (settled id state path there assets) ≡ lookup p assets
  settled-other state path p none assets n = refl
  settled-other state path p (some folder) assets n =
      elim (Bool-cases (contains id folder.claims)) [
        | inl e ↦ rw e (settled_folder-other id state path p folder assets n)
        | inr e ↦ rw e (refl)
      ]

  -- An asset that was not there, or not this import's, after its folder is settled.
  settled_self :
      (path : FilePath) (s : Disk R C) (assets rest : List FilePath) (there : Option (Folder C))
      → ((folder : Folder C)
          → lookup path d.assets ≡ some folder
          → contains id folder.claims ≡ false)
      → lookup path s.assets ≡ there
      → AssetAt assets path there
      → AssetAt rest path (lookup path (settled id JournalState.prepared path there s.assets))
  settled_self path s assets rest none fresh e (inl same) = inl (e ∙ same)
  settled_self path s assets rest none fresh e (inr (folder, t, owned, gone)) = cc
  settled_self path s assets rest (some folder) fresh e (inl same) =
      rw (fresh folder (sym same)) (inl (e ∙ same))
  settled_self path s assets rest (some folder) fresh e (inr (other, t, inl (c, among), gone)) =
      let claimed_here : contains id folder.claims ≡ true =
        subst (λ f. contains id f.claims ≡ true) (sym (some-injective folder other t)) c in
      rw claimed_here (inl (remove_self path path s.assets refl ∙ sym gone))
  settled_self path s assets rest (some folder) fresh e (inr (other, t, inr (c, left), gone)) =
      let unclaimed : contains id folder.claims ≡ false =
        subst (λ f. contains id f.claims ≡ false) (sym (some-injective folder other t)) c in
      rw unclaimed (inr (folder, e, inr (unclaimed, left), gone))

  pub settle-Pending :
      (path : FilePath) (records assets : List FilePath) (s : Disk R C)
      → ((folder : Folder C)
          → lookup path d.assets ≡ some folder
          → contains id folder.claims ≡ false)
      → Pending records (path ∷ assets) s
      → Pending records assets (undo (settle id JournalState.prepared path) s)
  unfolding undo
  settle-Pending path records assets s fresh h = record {
    of_configs = h.of_configs;
    of_assets = λ p. elim (beq-cases path p) [
      | inl e ↦
          subst
            (λ q.
              AssetAt assets q
                (lookup q (settled id JournalState.prepared path (lookup path s.assets) s.assets)))
            e
            (settled_self path s (path ∷ assets) assets (lookup path s.assets) fresh refl
              (h.of_assets path))
      | inr n ↦
          AssetAt-weaker (path ∷ assets) assets p (lookup p s.assets) _
            (settled-other JournalState.prepared path p (lookup path s.assets) s.assets n)
            (λ c. later_among p path assets n c) (h.of_assets p)
    ];
    of_staging = h.of_staging;
  }
