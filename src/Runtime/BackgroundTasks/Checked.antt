-- ===== src/Runtime/BackgroundTasks/Checked.antt =====
-- What a check of background tasks reports.
use mathlib.Core.Option.{some-injective}
use deepagent_shell.Prelude.{
  String, ◌≡◌, refl, sym, ◌∙◌, ap, subst, Bool, true, ◌&&◌, List, [], ◌∷◌, Option, none, some,
  lookup, string_eq, pair_eq, ◌==◌, Bool-cases, inl, inr, arith, All, map,
}
use text.Mathlib.TextEquality.{eq_iff}
use deepagent_shell.Runtime.BackgroundTasks.Records.{
  is_active, BackgroundTaskRecord, BackgroundTaskSnapshot, Manager,
}
use deepagent_shell.Runtime.BackgroundTasks.{
  get, try_put, as_interrupted, normalize_active, check_one, check_locked, is_running,
}
use deepagent_shell.Runtime.BackgroundTasks.Runs.Steps.{IsSound}
use deepagent_shell.Runtime.BackgroundTasks.Runs.Keeps.{check_one-Keeps}

-- Where a snapshot shows an active task, this process runs the task.
abbrev pub IsHonest : Manager → BackgroundTaskSnapshot → Type 0
IsHonest m s =
    (r : BackgroundTaskRecord)
    → s.found ≡ some r
    → is_active r.status ≡ true
    → (r.runtime_instance_id ≡ m.runtime_instance_id)
      × (is_running (lookup r.task_id m.tasks) ≡ true)

-- The managers run the same tasks in the same process.
abbrev SameTasks : Manager → Manager → Type 0
SameTasks m n = (n.tasks ≡ m.tasks) × (n.runtime_instance_id ≡ m.runtime_instance_id)

module _ (writes : BackgroundTaskRecord → Bool) where
  try_put-SameTasks : (r : BackgroundTaskRecord) (m : Manager) → SameTasks m (try_put writes r m)
  try_put-SameTasks r m = elim (Bool-cases (writes r)) [
    | inl w ↦ rw (w) ((refl, refl))
    | inr w ↦ rw (w) ((refl, refl))
  ]

  normalize_active-honest :
      (now : String) (r : BackgroundTaskRecord) (m : Manager)
      → SameTasks m (normalize_active writes now r m).1
        × ((normalize_active writes now r m).0.task_id ≡ r.task_id)
        × (is_active (normalize_active writes now r m).0.status ≡ true
            → ((normalize_active writes now r m).0.runtime_instance_id ≡ m.runtime_instance_id)
              × (is_running (lookup (normalize_active writes now r m).0.task_id m.tasks) ≡ true))
  unfolding normalize_active
  normalize_active-honest now r m = elim (Bool-cases (is_active r.status)) [
    | inl a ↦
        elim (Bool-cases (
          r.runtime_instance_id == m.runtime_instance_id
          && is_running (lookup r.task_id m.tasks))) [
            | inl b ↦
                rw (a, b)
                  ((
                    (refl, refl),
                    refl,
                    λ h. (
                      (eq_iff r.runtime_instance_id m.runtime_instance_id).0 (ground (arith, b)),
                      ground (arith, b),
                    ),
                  ))
            | inr b ↦ rw (a, b) ((try_put-SameTasks (as_interrupted now r) m, refl, λ h. cc))
          ]
    | inr a ↦ rw (a) (((refl, refl), refl, λ h. cc (h, a)))
  ]

  -- The round's snapshot is of the id asked for, and honest; the tasks stay.
  abbrev Reported : Manager → String → BackgroundTaskSnapshot × Manager → Type 0
  Reported m t (s, n) = SameTasks m n × (s.task_id ≡ t) × IsHonest m s

  check_one-Reported :
      (now l t : String) (m : Manager) (found : Option BackgroundTaskRecord)
      → get l t m ≡ found
      → IsSound m
      → Reported m t (check_one writes now l t found m)
  check_one-Reported now l t m none e s = ((refl, refl), refl, λ r f h. cc)
  check_one-Reported now l t m (some r) e s =
      let p = normalize_active writes now r m in
      let (same, id, honest) = normalize_active-honest now r m in
      (
        same,
        id ∙ (s.keyed l t r e).1,
        λ x f h.
            let is_x = some-injective p.0 x f in
            subst
              (λ y.
                (y.runtime_instance_id ≡ m.runtime_instance_id)
                × (is_running (lookup y.task_id m.tasks) ≡ true))
              is_x (honest (subst (λ y. is_active y.status ≡ true) (sym is_x) h)),
      )

  IsHonest-SameTasks :
      (m n : Manager) → SameTasks m n → (s : BackgroundTaskSnapshot) → IsHonest n s → IsHonest m s
  IsHonest-SameTasks m n (tasks, runtime) s honest r f h =
      let (own, running) = honest r f h in
      (own ∙ runtime, ap (λ x. is_running (lookup r.task_id x)) (sym tasks) ∙ running)

  all-IsHonest :
      (m n : Manager)
      → SameTasks m n
      → (l : List BackgroundTaskSnapshot) → All (IsHonest n) l
      → All (IsHonest m) l
  all-IsHonest m n same [] h = tt
  all-IsHonest m n same (s ∷ l) h = (IsHonest-SameTasks m n same s h.0, all-IsHonest m n same l h.1)

  -- From a sound manager: a check reports one snapshot for each id asked for, in order; and where a
  -- snapshot shows an active task, this process wrote the record and runs the task.
  pub check_locked-IsHonest :
      (now l : String) (ids : List String) (m : Manager)
      → IsSound m
      → (map (λ s. s.task_id) (check_locked writes now l ids m).0 ≡ ids)
        × All (IsHonest m) (check_locked writes now l ids m).0
  unfolding check_locked
  check_locked-IsHonest now l [] m s = (refl, tt)
  check_locked-IsHonest now l (t ∷ ids) m s =
      let p = check_one writes now l t (get l t m) m in
      let (same, id, honest) = check_one-Reported now l t m (get l t m) refl s in
      let kept = check_one-Keeps writes now l t m (get l t m) refl s in
      let (ids_eq, rest) = check_locked-IsHonest now l ids p.1 kept.1 in
      (
        ap (λ x. x ∷ map (λ s. s.task_id) (check_locked writes now l ids p.1).0) id
            ∙ ap (λ x. t ∷ x) ids_eq,
        (honest, all-IsHonest m p.1 same (check_locked writes now l ids p.1).0 rest),
      )
