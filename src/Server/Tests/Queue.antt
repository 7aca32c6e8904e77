-- ===== src/Server/Tests/Queue.antt =====
-- A task queue for the tests: a list that is sorted by priority.
use spraycc.Base.{
  ℕ, ◌≤◌, ◌≡◌, inl, refl, Bool, true, ◌&&◌, Option, none, some, List, [], ◌∷◌, Permᴰ, length, leb,
  arith, if◌then◌else◌, Bool-cases, inr,
}
use spraycc.Server.Queue.{PriorityQueue, is_nil}
use spraycc.Server.State.{Item}

abbrev pub Entry : Type 0
Entry = Item × ℕ

abbrev pub sorted : List Entry → Bool
sorted [] = true
sorted (e ∷ []) = true
sorted (e ∷ f ∷ es) = leb f.1 e.1 && sorted (f ∷ es)

abbrev pub place : Entry → List Entry → List Entry
place e [] = e ∷ []
place e (f ∷ es) = if leb f.1 e.1 then e ∷ f ∷ es else f ∷ place e es

pub place-sorted : (e : Entry) (es : List Entry) → sorted es ≡ true → sorted (place e es) ≡ true
place-sorted e [] h = refl
place-sorted e (f ∷ []) h = ground arith
place-sorted e (f ∷ g ∷ es) h = ground (arith, place-sorted e (g ∷ es))

self : (es : List Entry) → Permᴰ es es
self [] = Permᴰ.nil
self (e ∷ es) = Permᴰ.cons refl (self es)

pub place-perm : (e : Entry) (es : List Entry) → Permᴰ (place e es) (e ∷ es)
place-perm e [] = Permᴰ.cons refl Permᴰ.nil
place-perm e (f ∷ es) = elim (Bool-cases (leb f.1 e.1)) [
  | inl h ↦ rw h (Permᴰ.cons refl (self (f ∷ es)))
  | inr h ↦ rw h (Permᴰ.trans (Permᴰ.cons refl (place-perm e es)) (Permᴰ.swap refl refl))
]

abbrev pub Sorted : Type 0
Sorted = (es : List Entry) × (sorted es ≡ true)

abbrev pub first : (es : List Entry) → sorted es ≡ true → Option (Entry × Sorted)
first [] h = none
first (e ∷ []) h = some (e, ([], refl))
first (e ∷ f ∷ es) h = some (e, (f ∷ es, ground arith))

pub first-none : (es : List Entry) (h : sorted es ≡ true) → es ≡ [] → first es h ≡ none
first-none [] h e = refl
first-none (x ∷ xs) h e = cc

pub first-some :
    (xs : List Entry) (h : sorted xs ≡ true) (e : Entry) (es : List Entry)
    → xs ≡ e ∷ es
    → (q : Sorted) × (first xs h ≡ some (e, q)) × (q.0 ≡ es)
first-some [] h e es eq = cc
first-some (x ∷ []) h e es eq = (([], refl), cc, cc)
first-some (x ∷ y ∷ xs) h e es eq = ((y ∷ xs, ground arith), cc, cc)

pub highest :
    (xs : List Entry)
    → sorted xs ≡ true
    → (e f : Entry) (es : List Entry) → xs ≡ e ∷ f ∷ es
    → f.1 ≤ e.1
highest xs h e f es eq = ground (arith, rw eq at h)

abbrev pub queue : PriorityQueue Item
queue = record {
  Queue = Sorted;
  new = ([], refl);
  is_empty = λ q. is_nil q.0;
  len = λ q. length q.0;
  push = λ q x p. (place (x, p) q.0, place-sorted (x, p) q.0 q.1);
  pop = λ q. first q.0 q.1;
  entries = λ q. q.0;
  entries-new = refl;
  is_empty_lem = λ q. refl;
  len_lem = λ q. refl;
  pop_none = λ q. first-none q.0 q.1;
  pop_some = λ q. first-some q.0 q.1;
  highest_first = λ q e f es h. highest q.0 q.1 e f es h;
  push_lem = λ q x p. inl (place-perm (x, p) q.0);
}
