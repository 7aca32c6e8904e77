-- ===== src/Server/Invariant/Pairing.antt =====
-- A task and an executor are paired: the client and the executor leave the queues.
use spraycc.Base.{
  ℕ, ◌+◌, ◌≤◌, ◌≡◌, ◌≢◌, some, List, ◌∷◌, arith, ◌==◌, total, get_elem?, set, length-set,
  if◌then◌else◌, get_elem?-set, total-set,
}
use spraycc.Server.State.{Env, Item, Remote}
use spraycc.Server.Invariant.{Slots, Links, runs, busy, Books, Closed}
use spraycc.Server.Invariant.Slots.{IsWaiting, IsIdle}
use spraycc.Server.Invariant.Links.{set-Links, Link-client, Link-Serves}

module _ (rs : List Remote) (es : List (Item × ℕ)) (xs : List ℕ) (e : Item × ℕ) (x : ℕ)
    (slots : Slots rs (e ∷ es) (x ∷ xs)) where
  pub heads_differ : e.0.0 ≢ x
  heads_differ same = ground (arith, slots x)

  module _ (c y c' y' : Remote) (at_c : get_elem? rs e.0.0 ≡ some c)
      (at_x : get_elem? rs x ≡ some y) (c_waits : IsWaiting c) (y_idle : IsIdle y)
      (c_type : c'.conn_type ≡ c.conn_type) (c_paired : c'.paired_id ≡ some x)
      (y_type : y'.conn_type ≡ y.conn_type) (y_paired : y'.paired_id ≡ some e.0.0) where
    abbrev paired : List Remote
    paired = set (set rs e.0.0 c') x y'

    at_x_still : get_elem? (set rs e.0.0 c') x ≡ some y
    at_x_still = ground (arith, get_elem?-set rs e.0.0 x c' c at_c, at_x, heads_differ)

    paired_at :
        (i : ℕ)
        → get_elem? paired i
          ≡ (if x == i then some y' else if e.0.0 == i then some c' else get_elem? rs i)
    paired_at i = ground (
      arith,
      get_elem?-set (set rs e.0.0 c') x i y' y at_x_still,
      get_elem?-set rs e.0.0 i c' c at_c,
    )

    pub paired-Slots : Slots paired es xs
    paired-Slots i = rw (paired_at i) (ground (arith, slots i, heads_differ))

    pub paired-runs : total runs paired ≡ total runs rs
    paired-runs = ground (
      arith,
      total-set runs (set rs e.0.0 c') x y' y at_x_still,
      total-set runs rs e.0.0 c' c at_c,
    )

    pub paired-busy : total busy paired ≤ total busy rs + 1
    paired-busy = ground (
      arith,
      total-set busy (set rs e.0.0 c') x y' y at_x_still,
      total-set busy rs e.0.0 c' c at_c,
    )

    paired-Links : Links rs → Links paired
    paired-Links links =
        set-Links (set rs e.0.0 c') x y' y at_x_still
          (set-Links rs e.0.0 c' c at_c links (λ j h. ground arith)
            (Link-client _ _ c'.conn_type c'.paired_id (ground arith)))
          (λ j h. ground arith)
          (Link-Serves paired x y'.conn_type y'.paired_id e.0.0 y_paired
            (rw (paired_at e.0.0) (ground (arith, heads_differ))))

    pub paired-Books :
        (run fin sub : ℕ) → Books rs (e ∷ es) (x ∷ xs) run fin sub → Books paired es xs run fin sub
    paired-Books run fin sub books = record {
      slots = paired-Slots;
      links = paired-Links books.links;
      small = omega (arith, length-set (set rs e.0.0 c') x y', length-set rs e.0.0 c', books.small);
      executors = omega (arith, books.executors, paired-runs);
      tasks = omega (arith, books.tasks, paired-busy);
    }

    pub paired-Closed : (env : Env) → Closed env rs (x ∷ xs) → Closed env paired xs
    paired-Closed env closed i v at_i gone inside =
        closed i v (ground (arith, paired_at i, slots i, heads_differ)) gone (ground arith)
