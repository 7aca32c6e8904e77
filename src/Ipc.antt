-- ===== src/Ipc.antt =====
-- src/ipc.rs: the messages between the processes, and the id of a task's target. A path is a
-- text, and a HashMap of environment variables a list of pairs. Durations and times are counted in
-- nanoseconds.
pub mod Framing
pub mod Targets
pub mod Outputs
pub mod Printing
mod Checks
mod Tests
use mathlib.Core.Option
use spraycc.Base.{ℕ, ℤ, String, ◌<>◌, Bool, Option, none, some, List, [], ◌∷◌, get_elem?}

pub record CallMe : Type 0 where
  pub addr : String
  pub access_code : ℕ

pub data OutputType : Type 0 where
  stdout stderr : OutputType
  file : ℕ → OutputType

pub record TaskDetails : Type 0 where
  pub working_dir : String
  pub cmd : String
  pub args : List String
  pub output_args : List ℕ
  pub env : List (String × String)
  pub priority_task : Bool

-- Each argument behind a `;`.
push_args : String → List String → String
push_args s [] = s
push_args s (arg ∷ rest) = push_args (s <> ";" <> arg) rest

join : List String → String
join [] = ""
join (x ∷ []) = x
join (x ∷ y ∷ rest) = x <> ";" <> join (y ∷ rest)

-- `args[i]` for each index; `none` is the panic of an index out of range.
pick : List String → List ℕ → Option (List String)
pick args [] = some []
pick args (i ∷ is) = elim (get_elem? args i) [
  | none ↦ none
  | some x ↦ Option.map (λ xs. x ∷ xs) (pick args is)
]

target_from : String → List String → List ℕ → Option String
unfolding push_args join pick
target_from dir args [] = some (push_args dir args)
target_from dir args (i ∷ []) = get_elem? args i
target_from dir args (i ∷ j ∷ is) = Option.map join (pick args (i ∷ j ∷ is))

-- `TaskDetails::get_target_id`; `none` is a panic.
unfoldable pub get_target_id : TaskDetails → Option String
unfolding target_from
get_target_id d = target_from d.working_dir d.args d.output_args

-- `TaskDetails::hash`, with the writes to the hasher as parameters.
unfoldable pub hash {ℓ} :
    {H : Type ℓ} → (String → H → H) → (List String → H → H) → TaskDetails → H → H
hash hash_path hash_args d state =
    hash_args d.args (hash_path d.cmd (hash_path d.working_dir state))

pub data Message : Type 0 where
  your_obedient_servant : ℕ → ℕ → Message
  task : ℕ → ℕ → TaskDetails → Message
  task_output : OutputType → List ℕ → Message
  task_failed : String → Message
  task_done : Option ℤ → String → ℕ → ℕ → Message
  cancel_task piss_off dropped : Message
