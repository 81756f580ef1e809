-- ===== src/Workflow/Scripts/Values.antt =====
-- command.py and task_dispatcher.py: `_detached`, the copy of the state that a script may write to.
-- `A` is the type of what is neither a mapping nor a sequence, which `deepcopy` copies.
use deepagent_shell.Prelude.{String, Dict, map}

mutual
  pub data Value (A : Type 0) : Type 0 where
    atom : A → Value A
    list : Items A → Value A
    -- A tuple, or another `Sequence` that is no text.
    sequence : Items A → Value A
    mapping : Fields A → Value A

  pub data Items (A : Type 0) : Type 0 where
    nil : Items A
    cons : Value A → Items A → Items A

  pub data Fields (A : Type 0) : Type 0 where
    end : Fields A
    field : String → Value A → Fields A → Fields A

unfoldable mutual
  pub detached : {A : Type 0} → Value A → Value A
  detached (atom a) = atom a
  detached (list items) = list (detached_items items)
  detached (sequence items) = list (detached_items items)
  detached (mapping fields) = mapping (detached_fields fields)

  pub detached_items : {A : Type 0} → Items A → Items A
  detached_items nil = nil
  detached_items (cons value items) = cons (detached value) (detached_items items)

  pub detached_fields : {A : Type 0} → Fields A → Fields A
  detached_fields end = end
  detached_fields (field key value fields) = field key (detached value) (detached_fields fields)

-- `_detached(state)` on the mapping of the channels.
abbrev pub detached_state : {A : Type 0} → Dict String (Value A) → Dict String (Value A)
detached_state state = map (λ entry. (entry.0, detached entry.1)) state
