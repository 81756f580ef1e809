-- ===== src/Prelude/Mapping.antt =====
-- Python's `dict`: an association list in insertion order. A write to a key that is there keeps its place.
use mathlib.Core.Path.{◌≡◌, refl, ap, ◌∙◌}
use mathlib.Core.Logic.{◌⊎◌, inl, inr}
use mathlib.Core.Bool.{false}
use mathlib.Core.Option.{Option, none, some}
use mathlib.Core.List.{List, [], ◌∷◌}
use native.Mathlib.Omega.{arith}
use deepagent_shell.Prelude.Tests.{if◌then◌else◌, Bool-cases}
use deepagent_shell.Prelude.Equality.{Eq, ◌==◌}

abbrev pub Dict {ℓ κ} : Type ℓ → Type κ → Type (ℓ ⊔ κ)
Dict K V = List (K × V)

module _ {ℓ κ} {K : Type ℓ} {V : Type κ} ⦃e : Eq K⦄ where
  unfoldable pub lookup : K → Dict K V → Option V
  lookup k [] = none
  lookup k ((j, v) ∷ m) = let rest = lookup k m in if j == k then some v else rest

  -- `m[k] = v`
  unfoldable pub insert : K → V → Dict K V → Dict K V
  insert k v [] = (k, v) ∷ []
  insert k v ((j, w) ∷ m) = let rest = insert k v m in if j == k then (j, v) ∷ m else (j, w) ∷ rest

  -- `m.pop(k, None)`
  unfoldable pub remove : K → Dict K V → Dict K V
  remove k [] = []
  remove k ((j, w) ∷ m) = let rest = remove k m in if j == k then rest else (j, w) ∷ rest

  pub lookup-insert :
      (written asked : K) (v : V) (m : Dict K V)
      → lookup asked (insert written v m) ≡ (if written == asked then some v else lookup asked m)
  unfolding lookup insert
  lookup-insert written asked v [] = refl
  lookup-insert written asked v ((here, old) ∷ m) = ground (
    arith,
    lookup-insert written asked v m,
    e.beq_iff written asked,
    e.beq_iff here written,
    e.beq_iff here asked,
  )

  pub lookup-remove :
      (k j : K) (m : Dict K V) → lookup j (remove k m) ≡ (if k == j then none else lookup j m)
  unfolding lookup remove
  lookup-remove k j [] = ground arith
  lookup-remove k j ((i, w) ∷ m) =
      ground (arith, e.beq_iff k j, e.beq_iff i k, e.beq_iff i j, lookup-remove k j m)

  -- What a key holds after a write: the value written, or what it held.
  pub insert-cases :
      (k j : K) (v : V) (m : Dict K V)
      → ((k ≡ j) × (lookup j (insert k v m) ≡ some v)) ⊎ (lookup j (insert k v m) ≡ lookup j m)
  insert-cases k j v m = elim (Bool-cases (k == j)) [
    | inl h ↦
        inl (
          (e.beq_iff k j).0 h,
          lookup-insert k j v m ∙ ap (λ b. if b then some v else lookup j m) h,
        )
    | inr h ↦ inr (lookup-insert k j v m ∙ ap (λ b. if b then some v else lookup j m) h)
  ]

  pub remove-cases :
      (k j : K) (m : Dict K V)
      → (lookup j (remove k m) ≡ none) ⊎ (((k == j) ≡ false) × (lookup j (remove k m) ≡ lookup j m))
  remove-cases k j m = elim (Bool-cases (k == j)) [
    | inl h ↦ inl (lookup-remove k j m ∙ ap (λ b. if b then none else lookup j m) h)
    | inr h ↦ inr (h, lookup-remove k j m ∙ ap (λ b. if b then none else lookup j m) h)
  ]
