-- ===== src/Workflow/Nodes/Returned.antt =====
-- compiler.py: what holds when a node function returns, from its guards.
use deepagent_shell.Prelude.{
  String, Bool, true, false, Option, none, some, if◌then◌else◌, string_eq, ◌==◌, ◌≡◌, refl, ◌∙◌, ap,
  subst, inl, inr, Bool-cases,
}
use deepagent_shell.Workflow.Nodes.{
  NodeError, Outcome, done, error, ◌>>=◌, ◌>>◌, or_error, ExecutionInfo, timed_id,
  invocation_metadata,
}

pub bind-done :
    {A B : Type 0} (o : Outcome A) (f : A → Outcome B) (b : B)
    → (o >>= f) ≡ done b
    → (a : A) × (o ≡ done a) × (f a ≡ done b)
bind-done (error e) f b h = cc
bind-done (done a) f b h = (a, refl, h)

pub guard-done :
    {B : Type 0} (m : Outcome (Unit {0})) (k : Outcome B) (b : B)
    → (m >> k) ≡ done b
    → (m ≡ done tt) × (k ≡ done b)
guard-done (error e) k b h = cc
guard-done (done u) k b h = (refl, h)

pub done_injective : {A : Type 0} (a b : A) → done a ≡ done b → a ≡ b
done_injective a b h = ap (λ o. elim o [ done x ↦ x | error e ↦ a ]) h

timed_id-done :
    {T : Type 0} (name id : String) (first : Option T) (time : T)
    → timed_id name first ≡ done (id, time)
    → (name ≡ id) × (first ≡ some time) × ((name == "") ≡ false)
timed_id-done name id none time h = cc
timed_id-done name id (some t) time h = elim (Bool-cases (name == "")) [
  | inl e ↦ cc (rw e at h)
  | inr e ↦
      let same = done_injective (name, t) (id, time) (rw e at h) in
      (ap (λ p. p.0) same, ap (λ p. some p.1) same, e)
]

pub invocation_metadata-done :
    {T : Type 0} (info : Option (ExecutionInfo T)) (id : String) (time : T)
    → invocation_metadata info ≡ done (id, time)
    → (info ≡ some (record { task_id = id; node_first_attempt_time = some time }))
      × ((id == "") ≡ false)
unfolding invocation_metadata
invocation_metadata-done none id time h = cc
invocation_metadata-done (some info) id time h =
    let (named, first, there) = timed_id-done info.task_id id info.node_first_attempt_time time h in
    (
      ap
            (λ name.
              some
                (record { task_id = name; node_first_attempt_time = info.node_first_attempt_time }))
            named
          ∙ ap (λ t. some (record { task_id = id; node_first_attempt_time = t })) first,
      subst (λ name. (name == "") ≡ false) named there,
    )

pub or_error-done :
    {A : Type 0} (e : NodeError) (o : Option A) (a : A) → or_error e o ≡ done a → o ≡ some a
or_error-done e none a h = cc
or_error-done e (some x) a h = ap (λ y. some y) (done_injective x a h)

pub known_id :
    (id : String)
    → (if id == "" then error NodeError.identity_unavailable else done tt) ≡ done tt
    → (id == "") ≡ false
known_id id h = elim (Bool-cases (id == "")) [ inl e ↦ cc (rw e at h) | inr e ↦ e ]

pub has_store_lem :
    (has_store : Bool)
    → (if has_store then done tt else error NodeError.store_unavailable) ≡ done tt
    → has_store ≡ true
has_store_lem true h = refl
has_store_lem false h = cc
