-- ===== src/Runtime/BackgroundTasks/Runs/Keeps.antt =====
-- What the checks of background tasks keep of a manager.
use mathlib.Core.Option.{some-injective}
use deepagent_shell.Prelude.{
  String, ◌≡◌, refl, sym, ◌∙◌, ap, subst, Bool, true, false, not, ◌&&◌, List, [], ◌∷◌, Option, none,
  some, Dict, lookup, string_eq, pair_eq, ◌==◌, Bool-cases, inl, inr, ◌⊎◌, arith,
}
use text.Mathlib.TextEquality.{eq_iff}
use deepagent_shell.Runtime.BackgroundTasks.Records.{
  is_active, BackgroundTaskRecord, LiveTask, Manager,
}
use deepagent_shell.Runtime.BackgroundTasks.{
  get, stored, try_put, as_interrupted, normalize_active, check_one, check_locked, is_running,
}
use deepagent_shell.Runtime.BackgroundTasks.Runs.Steps.{IsSound, Final}
use deepagent_shell.Runtime.BackgroundTasks.Runs.Writes.{put-Sound, put-Final}

-- The step keeps the process's id, soundness and the finished records.
abbrev pub Keeps : Manager → Manager → Type 0
Keeps m n = (n.runtime_instance_id ≡ m.runtime_instance_id) × IsSound n × Final m.store n.store

pub Final-trans :
    (a b c : Dict (String × String) BackgroundTaskRecord) → Final a b → Final b c → Final a c
Final-trans a b c f g l t r e h = g l t r (f l t r e h) h

pub Keeps-trans : (m n o : Manager) → Keeps m n → Keeps n o → Keeps m o
Keeps-trans m n o (i, s, f) (j, t, g) = (j ∙ i, t, Final-trans m.store n.store o.store f g)

pub Keeps-refl : (m : Manager) → IsSound m → Keeps m m
Keeps-refl m s = (refl, s, λ l t r e h. e)

-- A record that the store holds under its ids, written anew.
pub stored-Keeps :
    (m : Manager) (r : BackgroundTaskRecord)
    → IsSound m
    → ((old : BackgroundTaskRecord)
        → get r.lifecycle_id r.task_id m ≡ some old
        → is_active old.status ≡ true)
    → ((task : LiveTask)
        → lookup r.task_id m.tasks ≡ some task
        → task.done ≡ false
        → task.current.lifecycle_id ≡ r.lifecycle_id
        → (is_active r.status ≡ true) × (r.runtime_instance_id ≡ m.runtime_instance_id))
    → Keeps m (stored r m)
stored-Keeps m r s free fits = (
  refl,
  put-Sound m.runtime_instance_id m.store m.tasks r s fits,
  put-Final m.runtime_instance_id m.store m.tasks r free,
)

module _ (writes : BackgroundTaskRecord → Bool) where
  try_put-Keeps :
      (m : Manager) (r : BackgroundTaskRecord)
      → IsSound m
      → Keeps m (stored r m)
      → Keeps m (try_put writes r m)
  try_put-Keeps m r s k = elim (Bool-cases (writes r)) [
    | inl w ↦ rw (w) (k)
    | inr w ↦ rw (w) (Keeps-refl m s)
  ]

  -- The record of a task that is not running here.
  lost-Keeps :
      (checked_at : String) (m : Manager) (r : BackgroundTaskRecord)
      → IsSound m
      → get r.lifecycle_id r.task_id m ≡ some r
      → is_active r.status ≡ true
      → (r.runtime_instance_id == m.runtime_instance_id && is_running (lookup r.task_id m.tasks))
        ≡ false
      → Keeps m (stored (as_interrupted checked_at r) m)
  lost-Keeps checked_at m r s e active idle =
      stored-Keeps m (as_interrupted checked_at r) s
        (λ old o. subst (λ x. is_active x.status ≡ true) (some-injective r old (sym e ∙ o)) active)
        (λ task found running same.
          let (own_id, own, x, there, on, mine) = s.backed r.task_id task found running in
          let is_r : x ≡ r =
            some-injective x r (sym there ∙ ap (λ l. get l r.task_id m) same ∙ e) in
          let mine_r : r.runtime_instance_id ≡ m.runtime_instance_id =
            ap (λ y. y.runtime_instance_id) (sym is_r) ∙ mine in
          absurd (
            ground (
              arith,
              idle,
              (eq_iff r.runtime_instance_id m.runtime_instance_id).1 mine_r,
              ap is_running found,
              ap not running,
            )))

  pub normalize_active-Keeps :
      (checked_at : String) (m : Manager) (r : BackgroundTaskRecord)
      → IsSound m
      → get r.lifecycle_id r.task_id m ≡ some r
      → Keeps m (normalize_active writes checked_at r m).1
  unfolding normalize_active
  normalize_active-Keeps checked_at m r s e = elim (Bool-cases (is_active r.status)) [
    | inl a ↦
        elim (Bool-cases (
          r.runtime_instance_id == m.runtime_instance_id
          && is_running (lookup r.task_id m.tasks))) [
            | inl b ↦ rw (a, b) (Keeps-refl m s)
            | inr b ↦
                rw (a, b)
                  (try_put-Keeps m (as_interrupted checked_at r) s
                    (lost-Keeps checked_at m r s e a b))
          ]
    | inr a ↦ rw (a) (Keeps-refl m s)
  ]

  -- What `_get` finds is the record under its own ids.
  pub get-own :
      (m : Manager) (l t : String) (r : BackgroundTaskRecord)
      → IsSound m
      → get l t m ≡ some r
      → get r.lifecycle_id r.task_id m ≡ some r
  get-own m l t r s e =
      let (same_l, same_t) = s.keyed l t r e in
      ap (λ i. get i r.task_id m) same_l ∙ ap (λ i. get l i m) same_t ∙ e

  pub check_one-Keeps :
      (now l t : String) (m : Manager) (found : Option BackgroundTaskRecord)
      → get l t m ≡ found
      → IsSound m
      → Keeps m (check_one writes now l t found m).1
  check_one-Keeps now l t m none e s = Keeps-refl m s
  check_one-Keeps now l t m (some r) e s = normalize_active-Keeps now m r s (get-own m l t r s e)

  pub check_locked-Keeps :
      (now l : String) (ids : List String) (m : Manager)
      → IsSound m
      → Keeps m (check_locked writes now l ids m).1
  unfolding check_locked
  check_locked-Keeps now l [] m s = Keeps-refl m s
  check_locked-Keeps now l (t ∷ ids) m s =
      let one = check_one-Keeps now l t m (get l t m) refl s in
      let after = (check_one writes now l t (get l t m) m).1 in
      Keeps-trans m after (check_locked writes now l ids after).1 one
        (check_locked-Keeps now l ids after one.1)

  -- A record is left as it is, or is no longer active.
  pub normalize_active-cases :
      (now : String) (r : BackgroundTaskRecord) (m : Manager)
      → (normalize_active writes now r m ≡ (r, m))
        ⊎ (is_active (normalize_active writes now r m).0.status ≡ false)
  unfolding normalize_active
  normalize_active-cases now r m = elim (Bool-cases (is_active r.status)) [
    | inl a ↦
        elim (Bool-cases (
          r.runtime_instance_id == m.runtime_instance_id
          && is_running (lookup r.task_id m.tasks))) [
            | inl b ↦ inl (rw (a, b) (refl))
            | inr b ↦ inr (rw (a, b) (refl))
          ]
    | inr a ↦ inl (rw (a) (refl))
  ]
