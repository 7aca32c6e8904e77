-- ===== src/Server/Queue.antt =====
-- The crate priority_queue, which the server takes its task queue from, as an interface: the
-- operations that the server calls and what the crate documents of them.
use spraycc.Base.{
  ℕ, ◌≤◌, ◌≡◌, ◌⊎◌, Bool, true, false, Option, none, some, List, [], ◌∷◌, Permᴰ, length,
}

abbrev pub is_nil {ℓ} : {A : Type ℓ} → List A → Bool
is_nil [] = true
is_nil (x ∷ xs) = false

-- `entries` lists what the queue holds, with the priorities, in the order in which `pop` will give
-- it: the highest priority first. An item stands in the queue once: a second `push` of it only
-- sets its priority.
pub record PriorityQueue (Item : Type 0) : Type 1 where
  pub Queue : Type 0
  pub new : Queue
  pub is_empty : Queue → Bool
  pub len : Queue → ℕ
  pub push : Queue → Item → ℕ → Queue
  pub pop : Queue → Option ((Item × ℕ) × Queue)
  pub entries : Queue → List (Item × ℕ)
  pub entries-new : entries new ≡ []
  pub is_empty_lem : (q : Queue) → is_empty q ≡ is_nil (entries q)
  pub len_lem : (q : Queue) → len q ≡ length (entries q)
  pub pop_none : (q : Queue) → entries q ≡ [] → pop q ≡ none
  pub pop_some :
      (q : Queue) (e : Item × ℕ) (es : List (Item × ℕ))
      → entries q ≡ e ∷ es
      → (q' : Queue) × (pop q ≡ some (e, q')) × (entries q' ≡ es)
  pub highest_first :
      (q : Queue) (e f : Item × ℕ) (es : List (Item × ℕ)) → entries q ≡ e ∷ f ∷ es → f.1 ≤ e.1
  pub push_lem :
      (q : Queue) (x : Item) (p : ℕ)
      → Permᴰ (entries (push q x p)) ((x, p) ∷ entries q)
        ⊎ ((old : ℕ) × (rest : List (Item × ℕ)) × Permᴰ (entries q) ((x, old) ∷ rest)
            × Permᴰ (entries (push q x p)) ((x, p) ∷ rest))
