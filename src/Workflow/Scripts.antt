-- ===== src/Workflow/Scripts.antt =====
-- What a command and a task dispatcher share: server/src/agent_shell/command.py and task_dispatcher.py.
-- Either runs an author's script on a copy of the state and checks what the script returns and what it
-- wrote into the copy. An exception that is wrapped is a `Cause`; the text of its message is left out.
pub mod Values
pub mod Delta
pub mod Command
pub mod Dispatcher
pub mod Accepted
pub mod Complete
pub mod Tasks
use deepagent_shell.Prelude.{
  ℕ, String, Bool, true, false, ◌&&◌, not, List, [], ◌∷◌, Option, none, some, leb, size, contains,
  string_eq, if◌then◌else◌, ◌≡◌, ◌≤◌, refl, arith, subst, inl, inr, Bool-cases, All, Distinct, any,
  map,
}

-- What went wrong behind "command failed" or "task dispatcher failed".
pub data Cause : Type 0 where
  script_raised invalid_result unsupported_change deleted_channel : Cause
  unsupported_update invalid_update unknown_key : Cause

pub data Checked (A : Type 0) : Type 0 where
  ok : A → Checked A
  failed : Cause → Checked A

infixl 5 ◌>>=◌
abbrev pub ◌>>=◌ : {A B : Type 0} → Checked A → (A → Checked B) → Checked B
ok a >>= f = f a
failed cause >>= f = failed cause

abbrev pub or_fail : {A : Type 0} → Cause → Option A → Checked A
or_fail cause none = failed cause
or_fail cause (some a) = ok a

-- The channels, `WorkflowState.__annotations__`.
abbrev pub channels : List String
channels = "shared_vars" ∷ "agent_invocations" ∷ "background_tasks" ∷ "files" ∷ []

-- `StringConstraints(strip_whitespace=True)` with `Field(min_length=1, max_length=most)`: pydantic trims by
-- `trim` and then measures.
unfoldable pub bounded_key : (String → String) → ℕ → String → Option String
unfolding size
bounded_key trim most text =
    if leb 1 (size (trim text)) && leb (size (trim text)) most then some (trim text) else none

abbrev pub cons_key : Option String → Option (List String) → Option (List String)
cons_key none rest = none
cons_key (some key) none = none
cons_key (some key) (some rest) = some (key ∷ rest)

-- The items of a `list` of such keys.
unfoldable pub bounded_keys : (String → String) → ℕ → List String → Option (List String)
bounded_keys trim most [] = some []
bounded_keys trim most (text ∷ texts) =
    cons_key (bounded_key trim most text) (bounded_keys trim most texts)

-- `len(values) == len(set(values))`
unfoldable pub is_unique : List String → Bool
is_unique [] = true
is_unique (value ∷ values) = not (contains value values) && is_unique values

pub Checked-injective : {A : Type 0} (a b : A) → ok a ≡ ok b → a ≡ b
Checked-injective a b h = cc

pub >>=-ok :
    {A B : Type 0} (m : Checked A) (f : A → Checked B) (b : B)
    → (m >>= f) ≡ ok b
    → (a : A) × (m ≡ ok a) × (f a ≡ ok b)
>>=-ok (ok a) f b h = (a, refl, h)
>>=-ok (failed cause) f b h = cc

pub or_fail-ok :
    {A : Type 0} (cause : Cause) (o : Option A) (a : A) → or_fail cause o ≡ ok a → o ≡ some a
or_fail-ok cause none a h = cc
or_fail-ok cause (some x) a h = cc

-- A guard that fails on `true` was passed.
pub passed :
    {A : Type 0} (cause : Cause) (test : Bool) (rest : Checked A) (a : A)
    → (if test then failed cause else rest) ≡ ok a
    → (test ≡ false) × (rest ≡ ok a)
passed cause true rest a h = cc
passed cause false rest a h = (refl, h)

-- A key within its bounds.
abbrev pub Within : ℕ → String → Type 0
Within most key = (1 ≤ size key) × (size key ≤ most)

pub bounded_key-ok :
    (trim : String → String) (most : ℕ) (text key : String)
    → bounded_key trim most text ≡ some key
    → (trim text ≡ key) × Within most key
unfolding bounded_key
bounded_key-ok trim most text key h =
    elim (Bool-cases (leb 1 (size (trim text)) && leb (size (trim text)) most)) [
      | inl e ↦
          let same : trim text ≡ key = cc (rw e at h) in
          (same, subst (λ k. Within most k) same (ground (arith, e)))
      | inr e ↦ cc (rw e at h)
    ]

cons_key-ok :
    (o : Option String) (r : Option (List String)) (kept : List String)
    → cons_key o r ≡ some kept
    → (key : String) × (rest : List String) × (o ≡ some key) × (r ≡ some rest) × (key ∷ rest ≡ kept)
cons_key-ok none r kept h = cc
cons_key-ok (some key) none kept h = cc
cons_key-ok (some key) (some rest) kept h = (key, rest, refl, refl, cc)

-- What the length constraints leave of a list of keys: the trimmed texts, each within its bounds.
pub bounded_keys-ok :
    (trim : String → String) (most : ℕ) (texts kept : List String)
    → bounded_keys trim most texts ≡ some kept
    → (map trim texts ≡ kept) × All (Within most) kept
unfolding bounded_keys
bounded_keys-ok trim most [] kept h =
    let same : [] ≡ kept = cc h in (same, subst (λ ks. All (Within most) ks) same tt)
bounded_keys-ok trim most (text ∷ texts) kept h =
    let (key, rest, here, later, same) =
      cons_key-ok (bounded_key trim most text) (bounded_keys trim most texts) kept h in
    let head = bounded_key-ok trim most text key here in
    let tail = bounded_keys-ok trim most texts rest later in
    (rw (head.0, tail.0) (same), subst (λ ks. All (Within most) ks) same (head.1, tail.1))

pub is_unique-Distinct : (values : List String) → is_unique values ≡ true → Distinct values
unfolding is_unique
is_unique-Distinct [] h = tt
is_unique-Distinct (value ∷ values) h = (ground arith, is_unique-Distinct values (ground arith))

pub Distinct-is_unique : (values : List String) → Distinct values → is_unique values ≡ true
unfolding is_unique
Distinct-is_unique [] h = refl
Distinct-is_unique (value ∷ values) h = ground (arith, h.0, Distinct-is_unique values h.1)

-- `set(values) - set(allowed)` is empty.
pub none_unknown :
    (values allowed : List String)
    → any (λ value. not (contains value allowed)) values ≡ false
    → All (λ value. contains value allowed ≡ true) values
none_unknown [] allowed h = tt
none_unknown (value ∷ values) allowed h = (ground arith, none_unknown values allowed (ground arith))
