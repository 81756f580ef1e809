-- ===== src/Runtime/BackgroundTasks/Runs/Cancels.antt =====
-- What a cancellation of tasks keeps.
use mathlib.Core.Option.{some-injective}
use deepagent_shell.Prelude.{
  String, ◌≡◌, refl, sym, ◌∙◌, ap, subst, Bool, true, false, ◌&&◌, List, [], ◌∷◌, Option, none,
  some, lookup, string_eq, pair_eq, Bool-cases, inl, inr, arith,
}
use deepagent_shell.Runtime.BackgroundTasks.Records.{
  is_active, BackgroundTaskRecord, Manager, Outcome, returned, raised, BackgroundTaskSnapshot,
}
use deepagent_shell.Runtime.BackgroundTasks.{
  get, stored, normalize_active, is_running, request_cancel, cancel_one, cancel_locked, shown,
  cons_shown, with_rest, as_cancel_requested, is_cancel_requested,
}
use deepagent_shell.Runtime.BackgroundTasks.Runs.Steps.{IsSound}
use deepagent_shell.Runtime.BackgroundTasks.Runs.Keeps.{
  Keeps, Keeps-refl, Keeps-trans, stored-Keeps, get-own, normalize_active-Keeps,
  normalize_active-cases,
}

module _ (writes : BackgroundTaskRecord → Bool) where
  cancel_requested-Keeps :
      (m : Manager) (r : BackgroundTaskRecord)
      → IsSound m
      → get r.lifecycle_id r.task_id m ≡ some r
      → is_active r.status ≡ true
      → Keeps m (stored (as_cancel_requested writes r) m)
  cancel_requested-Keeps m r s e active =
      stored-Keeps m (as_cancel_requested writes r) s
        (λ old o. subst (λ x. is_active x.status ≡ true) (some-injective r old (sym e ∙ o)) active)
        (λ task found running same.
          let (own_id, own, x, there, on, mine) = s.backed r.task_id task found running in
          let is_r : x ≡ r =
            some-injective x r (sym there ∙ ap (λ l. get l r.task_id m) same ∙ e) in
          (refl, ap (λ y. y.runtime_instance_id) (sym is_r) ∙ mine))

  request_cancel-Keeps :
      (t : String) (m : Manager) (r : BackgroundTaskRecord)
      → IsSound m
      → get r.lifecycle_id r.task_id m ≡ some r
      → Keeps m (request_cancel writes t r m).1
  unfolding request_cancel
  request_cancel-Keeps t m r s e =
      elim (Bool-cases (is_active r.status && is_running (lookup t m.tasks))) [
        | inl a ↦ elim (Bool-cases (is_cancel_requested writes r.status)) [
          | inl c ↦ rw (a, c) (Keeps-refl m s)
          | inr c ↦ elim (Bool-cases (writes (as_cancel_requested writes r))) [
            | inl w ↦ rw (a, c, w) (cancel_requested-Keeps m r s e (ground (arith, a)))
            | inr w ↦ rw (a, c, w) (Keeps-refl m s)
          ]
        ]
        | inr a ↦ rw (a) (Keeps-refl m s)
      ]

  request_cancel-inactive :
      (t : String) (r : BackgroundTaskRecord) (m : Manager)
      → is_active r.status ≡ false
      → request_cancel writes t r m ≡ (returned r, m)
  unfolding request_cancel
  request_cancel-inactive t r m h = rw (h) (refl)

  shown-manager :
      (now : String) (p : Outcome BackgroundTaskRecord × Manager) → (shown writes now p).1 ≡ p.1
  shown-manager now (returned r, m) = refl
  shown-manager now (raised e, m) = refl

  cancel_one-Keeps :
      (now l t : String) (m : Manager) (found : Option BackgroundTaskRecord)
      → get l t m ≡ found
      → IsSound m
      → Keeps m (cancel_one writes now l t found m).1
  cancel_one-Keeps now l t m none e s = Keeps-refl m s
  cancel_one-Keeps now l t m (some r) e s =
      let own = get-own writes m l t r s e in
      let p = normalize_active writes now r m in
      rw (shown-manager now (request_cancel writes t p.0 p.1))
        (elim (normalize_active-cases writes now r m) [
          | inl same ↦ rw (same) (request_cancel-Keeps t m r s own)
          | inr idle ↦
              rw (request_cancel-inactive t p.0 p.1 idle)
                (normalize_active-Keeps writes now m r s own)
        ])

  cons_shown-manager :
      (one : BackgroundTaskSnapshot) (p : Outcome (List BackgroundTaskSnapshot) × Manager)
      → (cons_shown writes one p).1 ≡ p.1
  cons_shown-manager one (returned more, m) = refl
  cons_shown-manager one (raised e, m) = refl

  with_rest-Keeps :
      (m after : Manager) (one : Outcome BackgroundTaskSnapshot)
      (rest : Outcome (List BackgroundTaskSnapshot) × Manager)
      → Keeps m after
      → Keeps after rest.1
      → Keeps m (with_rest writes one after rest).1
  with_rest-Keeps m after (returned one) rest k l =
      rw (cons_shown-manager one rest) (Keeps-trans m after rest.1 k l)
  with_rest-Keeps m after (raised e) rest k l = k

  pub cancel_locked-Keeps :
      (now l : String) (ids : List String) (m : Manager)
      → IsSound m
      → Keeps m (cancel_locked writes now l ids m).1
  unfolding cancel_locked
  cancel_locked-Keeps now l [] m s = Keeps-refl m s
  cancel_locked-Keeps now l (t ∷ ids) m s =
      let p = cancel_one writes now l t (get l t m) m in
      let one = cancel_one-Keeps now l t m (get l t m) refl s in
      with_rest-Keeps m p.1 p.0 (cancel_locked writes now l ids p.1) one
        (cancel_locked-Keeps now l ids p.1 one.1)
