-- ===== src/Workflow/ScriptSamples.antt =====
-- A command and a dispatcher that write a shared variable, and the nodes that run them.
use deepagent_shell.Prelude.{
  ℕ, String, Bool, true, false, List, [], ◌∷◌, Option, none, some, Dict, lookup, contains, All,
  Distinct, string_eq, nat_eq, ◌==◌, ◌≡◌, ◌≢◌, refl, subst, strip, size, beq_refl, insert, arith,
}
use mathlib.Core.Option.{some-injective}
use deepagent_shell.Runtime.State.{keys, write_all}
use deepagent_shell.Runtime.State.Invocations.{slot_eq}
use deepagent_shell.Workflow.Scripts.{ok, channels, Within, bounded_key, bounded_keys, is_unique}
use deepagent_shell.Workflow.Scripts.Values.{Value, atom, detached}
use deepagent_shell.Workflow.Scripts.Delta.{Agree, state_delta, changed_entries, state_delta-merges}
use deepagent_shell.Workflow.Scripts.Command
use deepagent_shell.Workflow.Scripts.Command.{CommandResult, Returned, run_command, checked_result}
use deepagent_shell.Workflow.Scripts.Dispatcher
use deepagent_shell.Workflow.Scripts.Dispatcher.{
  ReturnedTasks, TaskDispatcherResult, TaskDispatchItem, ReturnedItem, item_fields, task_ids,
  run_task_dispatcher, checked_tasks, dispatch_items, dispatch_item,
}
use deepagent_shell.Workflow.Scripts.Accepted.{run_command-activates}
use deepagent_shell.Workflow.Scripts.Complete.{run_command-accepts}
use deepagent_shell.Workflow.Scripts.Tasks.{run_task_dispatcher-tasks}

abbrev pub atoms_equal : Value ℕ → Value ℕ → Bool
atoms_equal (atom a) (atom b) = a == b
atoms_equal _ _ = false

abbrev pub accepts_all : Dict String (Value ℕ) → Option (Dict String (Value ℕ))
accepts_all update = some update

pub accepts_all-keeps :
    (u v : Dict String (Value ℕ))
    → accepts_all u ≡ some v
    → (k : String) → contains k (keys v) ≡ true
    → contains k (keys u) ≡ true
accepts_all-keeps u v h k c =
    subst (λ m. contains k (keys m) ≡ true → contains k (keys u) ≡ true) (some-injective u v h)
      (λ d. d) c

abbrev pub before : Dict String (Value ℕ)
before = ("shared_vars", atom 1) ∷ ("files", atom 2) ∷ []

abbrev pub written : Dict String (Value ℕ)
written = ("shared_vars", atom 5) ∷ ("files", atom 2) ∷ []

abbrev pub own_update : Dict String (Value ℕ)
own_update = ("files", atom 7) ∷ []

abbrev pub both : Dict String (Value ℕ)
both = ("shared_vars", atom 5) ∷ ("files", atom 7) ∷ []

abbrev pub approve : Dict String (Value ℕ) → Option (Returned (Value ℕ) × Dict String (Value ℕ))
approve state = some (Command.fields (some (" ok " ∷ [])) (some own_update), written)

abbrev pub approved : CommandResult (Value ℕ)
approved = record { activate = "ok" ∷ []; update = both }

pub branches_trimmed : All (λ branch. strip branch ≡ branch) ("ok" ∷ "no" ∷ [])
unfolding strip
branches_trimmed = (refl, (refl, tt))

pub run_approve :
    run_command strip atoms_equal accepts_all approve before ("ok" ∷ "no" ∷ []) ≡ ok approved
unfolding run_command detached strip size bounded_keys bounded_key is_unique lookup insert
    changed_entries write_all
run_approve = refl

run_command-activates_example :
    All (λ branch. contains branch ("ok" ∷ "no" ∷ []) ≡ true) approved.activate
    × Distinct approved.activate
    × All (Within 64) approved.activate
    × ((k : String) → contains k (keys approved.update) ≡ true → contains k channels ≡ true)
run_command-activates_example =
    run_command-activates strip atoms_equal accepts_all accepts_all-keeps approve before
      ("ok" ∷ "no" ∷ []) branches_trimmed approved run_approve

Within-ok : Within 64 (strip " ok ")
unfolding strip size
Within-ok = omega arith

known_ok : contains (strip " ok ") ("ok" ∷ "no" ∷ []) ≡ true
unfolding strip
known_ok = refl

mutation_merged :
    accepts_all (write_all (changed_entries atoms_equal before written) own_update) ≡ some both
unfolding write_all changed_entries lookup insert
mutation_merged = refl

run_command-accepts_example :
    run_command strip atoms_equal accepts_all approve before ("ok" ∷ "no" ∷ [])
    ≡ ok (record { activate = strip " ok " ∷ []; update = both })
unfolding detached
run_command-accepts_example =
    run_command-accepts strip atoms_equal accepts_all approve before ("ok" ∷ "no" ∷ [])
      branches_trimmed (" ok " ∷ []) own_update written both refl (refl, (refl, tt))
      (refl, (refl, tt)) (refl, tt) mutation_merged (Within-ok, tt) (known_ok, tt) (refl, tt)

abbrev delta : Dict String ℕ
delta = ("shared_vars", 5) ∷ ("files", 3) ∷ []

abbrev old_channels : Dict String ℕ
old_channels = ("shared_vars", 1) ∷ ("background_tasks", 2) ∷ []

abbrev new_channels : Dict String ℕ
new_channels = ("shared_vars", 5) ∷ ("background_tasks", 2) ∷ ("files", 3) ∷ []

delta_taken : state_delta (λ a b. a == b) old_channels new_channels ≡ ok delta
unfolding state_delta changed_entries lookup
delta_taken = refl

state_delta-merges_example :
    Agree
      (λ a b. a == b)
      (lookup "files" (write_all old_channels delta))
      (lookup "files" new_channels)
state_delta-merges_example =
    state_delta-merges (λ a b. a == b) beq_refl old_channels new_channels delta
      (refl, (refl, (refl, tt))) delta_taken "files"

abbrev pub tasks : List (ReturnedItem ℕ)
tasks = item_fields " t1" "left" 10 ∷ item_fields "t2" "right " 20 ∷ []

abbrev pub split_work :
    Dict String (Value ℕ) → Option (ReturnedTasks ℕ (Value ℕ) × Dict String (Value ℕ))
split_work state = some (Dispatcher.fields tasks none, written)

abbrev pub dispatched : TaskDispatcherResult ℕ (Value ℕ)
dispatched = record {
  tasks =
      record { task_id = "t1"; dispatch_key = "left"; payload = 10 }
      ∷ record { task_id = "t2"; dispatch_key = "right"; payload = 20 }
      ∷ [];
  update = ("shared_vars", atom 5) ∷ [];
}

pub run_split_work :
    run_task_dispatcher strip atoms_equal accepts_all split_work before ("left" ∷ "right" ∷ [])
    ≡ ok dispatched
unfolding run_task_dispatcher detached strip size bounded_key is_unique lookup insert
    changed_entries write_all dispatch_items
run_split_work = refl

run_task_dispatcher-tasks_example :
    (dispatched.tasks ≢ [])
    × Distinct (task_ids dispatched.tasks)
    × All (λ item. contains item.dispatch_key ("left" ∷ "right" ∷ []) ≡ true) dispatched.tasks
    × ((k : String) → contains k (keys dispatched.update) ≡ true → contains k channels ≡ true)
run_task_dispatcher-tasks_example =
    run_task_dispatcher-tasks strip atoms_equal accepts_all accepts_all-keeps split_work before
      ("left" ∷ "right" ∷ []) dispatched run_split_work
