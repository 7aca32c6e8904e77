-- ===== src/Server/Invariant/Slots.antt =====
-- What the two queues say of the remotes in them.
use spraycc.Base.{ℕ, ◌<◌, ◌≡◌, refl, true, Option, none, some, List, arith, count, get_elem?}
use spraycc.Server.State.{Item, Remote}
use spraycc.Server.Invariant.{queued, SlotAt, Slots, may_be_client}

abbrev pub IsWaiting : Remote → Type 0
IsWaiting r = (r.paired_id ≡ none) × (may_be_client r.conn_type ≡ true)

abbrev pub IsIdle : Remote → Type 0
IsIdle r = (r.paired_id ≡ none)

slot-IsWaiting :
    (o : Option Remote) (q d : ℕ) → SlotAt o q d → 0 < q → (r : Remote) × (o ≡ some r) × IsWaiting r
slot-IsWaiting none q d h p = absurd (omega arith)
slot-IsWaiting (some r) q d h p = (r, refl, ground arith)

slot-IsIdle :
    (o : Option Remote) (q d : ℕ) → SlotAt o q d → 0 < d → (r : Remote) × (o ≡ some r) × IsIdle r
slot-IsIdle none q d h p = absurd (omega arith)
slot-IsIdle (some r) q d h p = (r, refl, ground arith)

module _ (rs : List Remote) (es : List (Item × ℕ)) (xs : List ℕ) (slots : Slots rs es xs) where
  pub queued-IsWaiting :
      (i : ℕ) → 0 < queued i es → (r : Remote) × (get_elem? rs i ≡ some r) × IsWaiting r
  queued-IsWaiting i p = slot-IsWaiting (get_elem? rs i) (queued i es) (count i xs) (slots i) p

  pub IsIdle-IsIdle : (i : ℕ) → 0 < count i xs → (r : Remote) × (get_elem? rs i ≡ some r) × IsIdle r
  IsIdle-IsIdle i p = slot-IsIdle (get_elem? rs i) (queued i es) (count i xs) (slots i) p
