-- ===== src/Runtime/BackgroundTasks/Runs/Final.antt =====
-- Starts and runs of background tasks, and sequences of steps: what they keep of a manager.
use mathlib.Core.Option.{some-injective}
use deepagent_shell.Prelude.{
  strip, size, String, ◌≡◌, refl, sym, ◌∙◌, ap, subst, Bool, true, false, not, ◌||◌, [], Option,
  none, some, Dict, lookup, insert, remove, string_eq, pair_eq, if◌then◌else◌, ◌==◌, Bool-cases,
  inl, inr, beq_refl, ltb, lookup-remove, lookup-insert,
}
use deepagent_shell.Runtime.BackgroundTasks.Records.{
  is_active, BackgroundTaskRecord, LiveTask, Manager, target_kind_eq,
}
use deepagent_shell.Runtime.BackgroundTasks.{get, stored}
use deepagent_shell.Runtime.BackgroundTasks.Runs.{
  StartRequest, ExecutionEnd, crashed, stopped, ended, as_running, begin_run, finish, start_again,
  new_record, start_new, start_found, start_in, start_task,
}
use deepagent_shell.Runtime.BackgroundTasks.Runs.Steps.{
  IsSound, Step, starts, checks, cancels, begins, ends, stops_early, never_begins, Steps, stay, go,
}
use deepagent_shell.Runtime.BackgroundTasks.Runs.Writes.{add-Sound, remove-Sound}
use deepagent_shell.Runtime.BackgroundTasks.Runs.Cancels.{cancel_locked-Keeps}
use deepagent_shell.Runtime.BackgroundTasks.Runs.Keeps.{
  Keeps, Keeps-refl, Keeps-trans, stored-Keeps, normalize_active-Keeps, check_locked-Keeps, get-own,
}

module _ (writes : BackgroundTaskRecord → Bool) where
  -- The manager with the task taken out.
  abbrev without : String → Manager → Manager
  without t m = record m { tasks = remove t m.tasks }

  without-Keeps : (t : String) (m : Manager) → IsSound m → Keeps m (without t m)
  without-Keeps t m s =
      (refl, remove-Sound m.runtime_instance_id m.store m.tasks t s, λ l i r e h. e)

  removed-none : (t : String) (tasks : Dict String LiveTask) → lookup t (remove t tasks) ≡ none
  removed-none t tasks =
      lookup-remove t t tasks ∙ ap (λ b. if b then none else lookup t tasks) (beq_refl t)

  finish-Keeps :
      (now : String) (result : ExecutionEnd) (current : BackgroundTaskRecord) (m : Manager)
      → IsSound m
      → ((old : BackgroundTaskRecord)
          → get current.lifecycle_id current.task_id m ≡ some old
          → is_active old.status ≡ true)
      → Keeps m (finish writes now result current m)
  unfolding finish
  finish-Keeps now result current m s free =
      let t = current.task_id in
      let terminal = ended now result current in
      let out = without-Keeps t m s in
      elim (Bool-cases (writes terminal)) [
        | inl w ↦ rw (w) (
            Keeps-trans m (without t m) (stored terminal (without t m)) out (
              stored-Keeps (without t m) terminal out.1 free
                (λ task found running same. cc (removed-none t m.tasks, found))))
        | inr w ↦ rw (w) (out)
      ]

  -- The record that the store has for a running task is active.
  backed-free :
      (t : String) (task : LiveTask) (m : Manager)
      → IsSound m
      → lookup t m.tasks ≡ some task
      → task.done ≡ false
      → (old : BackgroundTaskRecord)
      → get task.current.lifecycle_id task.current.task_id m ≡ some old
      → is_active old.status ≡ true
  backed-free t task m s e d old o =
      let (own_id, own, r, found, on, mine) = s.backed t task e d in
      let same : r ≡ old =
        some-injective r old
          (sym found ∙ ap (λ i. get task.current.lifecycle_id i m) (sym own_id) ∙ o) in
      subst (λ x. is_active x.status ≡ true) same on

  -- A record that is written and then held by a new task.
  start_kept :
      (r : BackgroundTaskRecord) (m : Manager)
      → Keeps m (stored r m)
      → is_active r.status ≡ true
      → r.runtime_instance_id ≡ m.runtime_instance_id
      → Keeps m (record (stored r m) {
        tasks = insert r.task_id (record { current = r; done = false }) m.tasks;
      })
  start_kept r m k active own =
      let key : String × String = (r.lifecycle_id, r.task_id) in
      let here : lookup key (insert key r m.store) ≡ some r =
        lookup-insert key key r m.store
        ∙ ap (λ b. if b then some r else lookup key m.store) (beq_refl key) in
      let task : LiveTask = record { current = r; done = false } in
      (
        refl,
        add-Sound m.runtime_instance_id (insert key r m.store) m.tasks r.task_id task k.1
            (λ d. (refl, own, r, here, active, own)),
        k.2,
      )

  begin-Keeps :
      (now t : String) (task : LiveTask) (m : Manager)
      → IsSound m
      → lookup t m.tasks ≡ some task
      → task.done ≡ false
      → Keeps m (begin_run writes now task.current m)
  unfolding begin_run
  begin-Keeps now t task m s e d =
      let c = task.current in
      let (own_id, own, old, found, on, mine) = s.backed t task e d in
      let r = as_running writes now c in
      let free = backed-free t task m s e d in
      elim (Bool-cases (writes r)) [
        | inl w ↦ rw (w) (
            start_kept r m (stored-Keeps m r s free (λ x x_found running same. (refl, own))) refl
              own)
        | inr w ↦ rw (w) (finish-Keeps now crashed r m s free)
      ]

  start_new-Keeps :
      (r : BackgroundTaskRecord) (m : Manager)
      → IsSound m
      → get r.lifecycle_id r.task_id m ≡ none
      → r.runtime_instance_id ≡ m.runtime_instance_id
      → is_active r.status ≡ true
      → Keeps m (start_new writes r m).1
  unfolding start_new
  start_new-Keeps r m s e own active = elim (Bool-cases (writes r)) [
    | inl w ↦ rw (w) (
        start_kept r m
          (stored-Keeps m r s (λ old o. cc (e, o)) (λ task found running same. (active, own)))
          active own)
    | inr w ↦ rw (w) (Keeps-refl m s)
  ]

  start_again-Keeps :
      (request : StartRequest) (op : String) (r : BackgroundTaskRecord) (m : Manager)
      → IsSound m
      → get r.lifecycle_id r.task_id m ≡ some r
      → Keeps m (start_again writes request op r m).1
  unfolding start_again
  start_again-Keeps request op r m s e =
      elim (Bool-cases (
        not (r.operation_id == op)
        || (not (r.target_kind == request.target_kind)
            || not (r.target_id == request.target_id)))) [
              | inl c ↦ rw (c) (Keeps-refl m s)
              | inr c ↦ rw (c) (normalize_active-Keeps writes request.now m r s e)
            ]

  start_found-Keeps :
      (request : StartRequest) (op t : String) (m : Manager) (found : Option BackgroundTaskRecord)
      → get request.lifecycle_id t m ≡ found
      → IsSound m
      → Keeps m (start_found writes request op t found m).1
  start_found-Keeps request op t m none e s =
      start_new-Keeps (new_record writes request op t m) m s e refl refl
  start_found-Keeps request op t m (some r) e s =
      start_again-Keeps request op r m s (get-own writes m request.lifecycle_id t r s e)

  module _ (lifecycles : String → Option String)
      (task_id_of : String → String → String → String) where
    start_in-Keeps :
        (request : StartRequest) (op : String) (status : Option String) (m : Manager)
        → IsSound m
        → Keeps m (start_in writes lifecycles task_id_of request op status m).1
    start_in-Keeps request op none m s = Keeps-refl m s
    start_in-Keeps request op (some status) m s =
        let t = task_id_of request.lifecycle_id request.launcher_run_id op in
        elim (Bool-cases (status == "deleting")) [
          | inl c ↦ rw (c) (Keeps-refl m s)
          | inr c ↦ rw (c) (start_found-Keeps request op t m (get request.lifecycle_id t m) refl s)
        ]

    start_task-Keeps :
        (request : StartRequest) (m : Manager)
        → IsSound m
        → Keeps m (start_task writes lifecycles task_id_of request m).1
    unfolding start_task
    start_task-Keeps request m s =
        let op = strip request.operation_id in
        elim (Bool-cases (not m.started)) [
          | inl a ↦ rw (a) (Keeps-refl m s)
          | inr a ↦ elim (Bool-cases (op == "" || ltb 128 (size op))) [
            | inl b ↦ rw (a, b) (Keeps-refl m s)
            | inr b ↦ rw (a, b) (start_in-Keeps request op (lifecycles request.lifecycle_id) m s)
          ]
        ]

    -- A step from a sound manager keeps it sound, and its finished records as they are.
    Step-Keeps : {m n : Manager} → IsSound m → Step writes lifecycles task_id_of m n → Keeps m n
    Step-Keeps {m = m} s (starts request) = start_task-Keeps request m s
    Step-Keeps {m = m} s (checks now l ids) = check_locked-Keeps writes now l ids m s
    Step-Keeps {m = m} s (cancels now l ids) = cancel_locked-Keeps writes now l ids m s
    Step-Keeps {m = m} s (begins now t task e d) = begin-Keeps now t task m s e d
    Step-Keeps {m = m} s (ends now t task result e d) =
        finish-Keeps now result task.current m s (backed-free t task m s e d)
    Step-Keeps {m = m} s (stops_early now t task e d) =
        finish-Keeps now stopped (as_running writes now task.current) m s
          (backed-free t task m s e d)
    Step-Keeps {m = m} s (never_begins t task e d) = (
      refl,
      add-Sound m.runtime_instance_id m.store m.tasks t (record task { done = true }) s (λ k. cc),
      λ l i r f h. f,
    )

    -- From a sound manager, after any steps in any order: the manager is sound, and each record that was
    -- not active before is still the same.
    pub Steps-Keeps :
        {m n : Manager} → IsSound m → Steps writes lifecycles task_id_of m n → Keeps m n
    Steps-Keeps {m = m} s stay = Keeps-refl m s
    Steps-Keeps {m = m} {n = o} s (go {n = n} step rest) =
        let now = Step-Keeps s step in Keeps-trans m n o now (Steps-Keeps now.1 rest)

-- A manager that has no records and no tasks is sound.
pub fresh-IsSound : (m : Manager) → m.store ≡ [] → m.tasks ≡ [] → IsSound m
unfolding lookup
fresh-IsSound m store tasks =
    rw (store, tasks) (record { keyed = λ l t r e. cc; backed = λ t task e d. cc })
