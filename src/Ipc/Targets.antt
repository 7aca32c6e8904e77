-- ===== src/Ipc/Targets.antt =====
-- src/ipc.rs: when a task has a target, and the hash of tasks.
use spraycc.Base.{
  ℕ, zero, suc, ◌≡◌, refl, String, true, some, List, [], ◌∷◌, get_elem?, length, all, ltb, arith,
}
use spraycc.Ipc.{TaskDetails, join, pick, target_from, push_args, get_target_id, hash}

pub get_elem?-lt_length :
    (args : List String) (i : ℕ)
    → ltb i (length args) ≡ true
    → (x : String) × (get_elem? args i ≡ some x)
get_elem?-lt_length [] i h = ground arith
get_elem?-lt_length (x ∷ args) zero h = (x, refl)
get_elem?-lt_length (x ∷ args) (suc i) h = get_elem?-lt_length args i (ground arith)

pick_lem :
    (args : List String) (is : List ℕ)
    → all (λ i. ltb i (length args)) is ≡ true
    → (names : List String) × (pick args is ≡ some names)
unfolding pick
pick_lem args [] h = ([], refl)
pick_lem args (i ∷ is) h =
    let (x, at) = get_elem?-lt_length args i (ground (arith, h)) in
    let (names, found) = pick_lem args is (ground (arith, h)) in (x ∷ names, rw (at, found, pick))

target_from_lem :
    (dir : String) (args : List String) (is : List ℕ)
    → all (λ i. ltb i (length args)) is ≡ true
    → (target : String) × (target_from dir args is ≡ some target)
unfolding target_from
target_from_lem dir args [] h = (push_args dir args, refl)
target_from_lem dir args (i ∷ []) h = get_elem?-lt_length args i (ground (arith, h))
target_from_lem dir args (i ∷ j ∷ is) h =
    let (names, found) = pick_lem args (i ∷ j ∷ is) h in (join names, rw (found, target_from))

pub get_target_id_lem :
    (task : TaskDetails)
    → all (λ i. ltb i (length task.args)) task.output_args ≡ true
    → (target : String) × (get_target_id task ≡ some target)
unfolding get_target_id
get_target_id_lem task h = target_from_lem task.working_dir task.args task.output_args h

-- Tasks that agree in their directory, command and arguments have the same hash, as equal keys must.
pub hash_agrees {ℓ} :
    {H : Type ℓ} (hash_path : String → H → H) (hash_args : List String → H → H) (d d' : TaskDetails)
    (state : H)
    → d.working_dir ≡ d'.working_dir
    → d.cmd ≡ d'.cmd
    → d.args ≡ d'.args
    → hash hash_path hash_args d state ≡ hash hash_path hash_args d' state
unfolding hash
hash_agrees hash_path hash_args d d' state same_dir same_cmd same_args =
    rw (same_dir, same_cmd, same_args) refl
