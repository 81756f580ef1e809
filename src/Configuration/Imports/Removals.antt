-- ===== src/Configuration/Imports/Removals.antt =====
-- journal.py: removals that stop on the way, and what they leave.
use deepagent_shell.Prelude.{
  String, true, false, not, List, [], ◌∷◌, Option, none, some, Dict, lookup, contains, keep,
  string_eq, pair_eq, ◌==◌, ◌≡◌, ◌⊎◌, refl, sym, ◌∙◌, subst, inl, inr, Bool-cases, beq-cases,
  lookup-insert,
}
use mathlib.Core.Option.{some-injective}
use text.Mathlib.TextEquality.{eq_iff}
use deepagent_shell.Configuration.Imports.{FilePath, Folder, prepared, Disk}
use deepagent_shell.Configuration.Imports.Cleanup.{
  settle, Torn, torn_folder, torn_asset, torn_staging, undo_partly,
}
use deepagent_shell.Configuration.Imports.Undone.{Pending, AssetAt, AssetAt-weaker, insert-other}
use deepagent_shell.Configuration.Imports.Forward.{insert_self}

module _ {R C : Type 0} (id : String) (d : Disk R C) (L : FilePath → Type 0) where
  -- A folder that is left where nothing was. The import does not claim it, so that no recovery removes it.
  abbrev pub LeftAt : FilePath → Option (Folder C) → Type 0
  LeftAt path there =
      (folder : Folder C) × (there ≡ some folder)
      × (contains id folder.claims ≡ false)
      × L path
      × (lookup path d.assets ≡ none)

  -- The same files, folders and stagings, but for the folders that are left; and no journal.
  pub record Restored (s : Disk R C) : Type 0 where
    pub configs_same : (path : FilePath) → lookup path s.configs ≡ lookup path d.configs
    pub assets_same :
        (path : FilePath)
        → (lookup path s.assets ≡ lookup path d.assets) ⊎ LeftAt path (lookup path s.assets)
    pub staging_same : (t : String) → lookup t s.staging ≡ lookup t d.staging
    pub no_journal : s.journals ≡ []

marker_gone :
    (id : String) (gone owners : List String)
    → contains id gone ≡ true
    → contains id (keep (λ owner. not (contains owner gone)) owners) ≡ false
marker_gone id gone [] h = refl
marker_gone id gone (owner ∷ owners) h = elim (beq-cases id owner) [
  | inl e ↦ rw (subst (λ o. contains o gone ≡ true) e h) (marker_gone id gone owners h)
  | inr n ↦ elim (Bool-cases (contains owner gone)) [
    | inl c ↦ rw c (marker_gone id gone owners h)
    | inr c ↦ rw (c, n) (marker_gone id gone owners h)
  ]
]

marker_kept :
    (id : String) (gone owners : List String)
    → contains id gone ≡ false
    → contains id owners ≡ true
    → contains id (keep (λ owner. not (contains owner gone)) owners) ≡ true
marker_kept id gone [] h c = cc
marker_kept id gone (owner ∷ owners) h c = elim (Bool-cases (id == owner)) [
  | inl e ↦ rw (subst (λ o. contains o gone ≡ false) ((eq_iff id owner).0 e) h, e) (refl)
  | inr n ↦ elim (Bool-cases (contains owner gone)) [
    | inl g ↦ rw g (marker_kept id gone owners h (rw n at c))
    | inr g ↦ rw (g, n) (marker_kept id gone owners h (rw n at c))
  ]
]

pub torn_staging-other :
    {C : Type 0} (id : String) (torn : Torn) (t : String)
    (there : Option (Dict FilePath (Folder C))) (staging : Dict String (Dict FilePath (Folder C)))
    → (id == t) ≡ false
    → lookup t (torn_staging id torn there staging) ≡ lookup t staging
torn_staging-other id torn t none staging n = refl
torn_staging-other id torn t (some tree) staging n = lookup-insert id t _ staging ∙ rw n (refl)

module _ {R C : Type 0} (id : String) (d : Disk R C) (L : FilePath → Type 0) (torn : Torn) where
  torn_folder-AssetAt :
      (assets : List FilePath) (path : FilePath) (folder : Folder C)
      → (contains id torn.markers ≡ true → L path)
      → contains path assets ≡ true
      → contains id folder.claims ≡ true
      → lookup path d.assets ≡ none
      → AssetAt id d L assets path (some (torn_folder torn folder))
  torn_folder-AssetAt assets path folder left among c gone =
      elim (Bool-cases (contains id torn.markers)) [
        | inl m ↦ inr (
          torn_folder torn folder,
          refl,
          inr (marker_gone id torn.markers folder.claims m, left m),
          gone,
        )
        | inr m ↦ inr (
          torn_folder torn folder,
          refl,
          inl (marker_kept id torn.markers folder.claims m c, among),
          gone,
        )
      ]

  torn_self :
      (path : FilePath) (s : Disk R C) (assets : List FilePath) (there : Option (Folder C))
      → ((folder : Folder C)
          → lookup path d.assets ≡ some folder
          → contains id folder.claims ≡ false)
      → (contains id torn.markers ≡ true → L path)
      → lookup path s.assets ≡ there
      → AssetAt id d L assets path there
      → AssetAt id d L assets path (lookup path (torn_asset id torn path there s.assets))
  torn_self path s assets none fresh left e at =
      subst (λ o. AssetAt id d L assets path o) (sym e) at
  torn_self path s assets (some folder) fresh left e at =
      elim (Bool-cases (contains id folder.claims)) [
        | inr c ↦ rw c (subst (λ o. AssetAt id d L assets path o) (sym e) at)
        | inl c ↦
            rw (c, insert_self path path (torn_folder torn folder) s.assets refl)
              (elim at [
                | inl same ↦ cc (fresh folder (sym same), c)
                | inr (other, t, owned, gone) ↦ elim owned [
                  | inl (claims, among) ↦ torn_folder-AssetAt assets path folder left among c gone
                  | inr (unclaimed, l) ↦ cc (
                    subst (λ f. contains id f.claims ≡ false) (sym (some-injective folder other t))
                        unclaimed,
                    c,
                  )
                ]
              ])
      ]

  torn-other :
      (path p : FilePath) (there : Option (Folder C)) (assets : Dict FilePath (Folder C))
      → (path == p) ≡ false
      → lookup p (torn_asset id torn path there assets) ≡ lookup p assets
  torn-other path p none assets n = refl
  torn-other path p (some folder) assets n = elim (Bool-cases (contains id folder.claims)) [
    | inl c ↦ rw c (insert-other path p (torn_folder torn folder) assets n)
    | inr c ↦ rw c (refl)
  ]

  pub torn-Pending :
      (path : FilePath) (records assets : List FilePath) (s : Disk R C)
      → ((folder : Folder C)
          → lookup path d.assets ≡ some folder
          → contains id folder.claims ≡ false)
      → (contains id torn.markers ≡ true → L path)
      → Pending id d L records assets s
      → Pending id d L records assets (undo_partly torn (settle id prepared path) s)
  unfolding undo_partly
  torn-Pending path records assets s fresh left h = record {
    of_configs = h.of_configs;
    of_assets = λ p. elim (beq-cases path p) [
      | inl e ↦
          subst
            (λ q.
              AssetAt id d L assets q
                (lookup q (torn_asset id torn path (lookup path s.assets) s.assets)))
            e (torn_self path s assets (lookup path s.assets) fresh left refl (h.of_assets path))
      | inr n ↦
          AssetAt-weaker id d L assets assets p (lookup p s.assets) _
            (torn-other path p (lookup path s.assets) s.assets n) (λ among. among) (h.of_assets p)
    ];
    of_staging = h.of_staging;
  }
