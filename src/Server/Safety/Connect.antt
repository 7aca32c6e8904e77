-- ===== src/Server/Safety/Connect.antt =====
-- A connection is accepted, and the state at the start.
use spraycc.Base.{
  ℕ, ◌^◌, ◌<◌, ◌≡◌, refl, none, List, [], ◌∷◌, ◌++◌, arith, ◌==◌, length, get_elem?,
  get_elem?-append, total-append, length-append, Bool-cases, inl, inr,
}
use spraycc.Server.Queue.{PriorityQueue}
use spraycc.Server.State.{Item, ServerState, Remote, pending}
use spraycc.Server.Handlers.{add_remote}
use spraycc.Server.Invariant.{Slots, Serves, Links, IsValid, runs, busy}
use spraycc.Server.Invariant.Links.{LinkAt-mono}

abbrev newcomer : Remote
newcomer = record { conn_type = pending; send_chan = []; paired_id = none }

get_elem?-length {ℓ} : {A : Type ℓ} (xs : List A) → get_elem? xs (length xs) ≡ none
get_elem?-length [] = refl
get_elem?-length (x ∷ xs) = get_elem?-length xs

module _ (rs : List Remote) where
  joined-Slots :
      (es : List (Item × ℕ)) (xs : List ℕ) → Slots rs es xs → Slots (rs ++ newcomer ∷ []) es xs
  joined-Slots es xs slots i =
      rw (get_elem?-append rs newcomer i) (ground (arith, slots i, get_elem?-length rs))

  joined-Serves :
      (i j : ℕ) → Serves (get_elem? rs j) i → Serves (get_elem? (rs ++ newcomer ∷ []) j) i
  joined-Serves i j h = rw (get_elem?-append rs newcomer j) (ground (arith, h, get_elem?-length rs))

  joined-Links : Links rs → Links (rs ++ newcomer ∷ [])
  joined-Links links i = elim (Bool-cases (length rs == i)) [
    | inl new ↦ rw (get_elem?-append rs newcomer i, new) tt
    | inr old ↦
        rw (get_elem?-append rs newcomer i, old)
          (LinkAt-mono rs _ i (get_elem? rs i) (joined-Serves i) (links i))
  ]

module _ (Q : PriorityQueue Item) where
  pub add_remote-IsValid :
      (s : ServerState Q) → length s.remotes < 2 ^ 32 → IsValid Q s → IsValid Q (add_remote Q s)
  unfolding add_remote
  add_remote-IsValid s room books = record {
    slots = joined-Slots s.remotes _ s.exec_queue books.slots;
    links = joined-Links s.remotes books.links;
    small = omega (arith, length-append s.remotes (newcomer ∷ []));
    executors = omega (arith, books.executors, total-append runs s.remotes (newcomer ∷ []));
    tasks = omega (arith, books.tasks, total-append busy s.remotes (newcomer ∷ []));
  }
