-- ===== src/Runtime/BackgroundTasks/Runs/Writes.antt =====
-- What one write to the store or to `_tasks` keeps.
use mathlib.Core.Option.{some-injective}
use deepagent_shell.Prelude.{
  String, ◌≡◌, sym, ◌∙◌, ap, subst, true, false, some, Dict, lookup, insert, remove, string_eq,
  pair_eq, insert-cases, remove-cases, inl, inr, arith,
}
use deepagent_shell.Runtime.BackgroundTasks.Records.{is_active, BackgroundTaskRecord, LiveTask}
use deepagent_shell.Runtime.BackgroundTasks.Runs.Steps.{Backed, Sound, Final}

module _ (runtime : String) (store : Dict (String × String) BackgroundTaskRecord)
    (tasks : Dict String LiveTask) where
  -- A write of a record where the store has none under its ids or an active one: it may take the place of
  -- a live task's record only with an active record of this process.
  pub put-Sound :
      (r : BackgroundTaskRecord)
      → Sound runtime store tasks
      → ((task : LiveTask)
          → lookup r.task_id tasks ≡ some task
          → task.done ≡ false
          → task.current.lifecycle_id ≡ r.lifecycle_id
          → (is_active r.status ≡ true) × (r.runtime_instance_id ≡ runtime))
      → Sound runtime (insert (r.lifecycle_id, r.task_id) r store) tasks
  put-Sound r s fits =
      let key : String × String = (r.lifecycle_id, r.task_id) in
      record {
        keyed = λ l t x e. elim (insert-cases key (l, t) r store) [
          | inl (k, here) ↦
              let same = some-injective r x (sym here ∙ e) in
              (
                ap (λ y. y.lifecycle_id) (sym same) ∙ ap (λ p. p.0) k,
                ap (λ y. y.task_id) (sym same) ∙ ap (λ p. p.1) k,
              )
          | inr there ↦ s.keyed l t x (sym there ∙ e)
        ];
        backed = λ t task e d.
            let (own_id, own, x, found, active, mine) = s.backed t task e d in
            elim (insert-cases key (task.current.lifecycle_id, t) r store) [
              | inl (k, here) ↦
                  let id : r.task_id ≡ t = ap (λ p. p.1) k in
                  let fit = fits task (ap (λ i. lookup i tasks) id ∙ e) d (sym (ap (λ p. p.0) k)) in
                  (own_id, own, r, here, fit.0, fit.1)
              | inr there ↦ (own_id, own, x, there ∙ found, active, mine)
            ];
      }

  pub put-Final :
      (r : BackgroundTaskRecord)
      → ((old : BackgroundTaskRecord)
          → lookup (r.lifecycle_id, r.task_id) store ≡ some old
          → is_active old.status ≡ true)
      → Final store (insert (r.lifecycle_id, r.task_id) r store)
  put-Final r free l t old e h =
      let key : String × String = (r.lifecycle_id, r.task_id) in
      elim (insert-cases key (l, t) r store) [
        | inl (k, here) ↦
            let active = free old (ap (λ j. lookup j store) k ∙ e) in
            absurd (ground (arith, active, h))
        | inr there ↦ there ∙ e
      ]

  pub add-Sound :
      (t : String) (task : LiveTask)
      → Sound runtime store tasks
      → (task.done ≡ false → Backed runtime store t task)
      → Sound runtime store (insert t task tasks)
  add-Sound t task s b = record {
    keyed = s.keyed;
    backed = λ j x e d. elim (insert-cases t j task tasks) [
      | inl (k, here) ↦
          let same = some-injective task x (sym here ∙ e) in
          subst (λ y. Backed runtime store j y) same
            (subst (λ i. Backed runtime store i task) k (b (ap (λ y. y.done) same ∙ d)))
      | inr there ↦ s.backed j x (sym there ∙ e) d
    ];
  }

  pub remove-Sound : (t : String) → Sound runtime store tasks → Sound runtime store (remove t tasks)
  remove-Sound t s = record {
    keyed = s.keyed;
    backed = λ j x e d. elim (remove-cases t j tasks) [
      | inl gone ↦ cc
      | inr (k, there) ↦ s.backed j x (sym there ∙ e) d
    ];
  }
