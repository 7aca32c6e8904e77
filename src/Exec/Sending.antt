-- ===== src/Exec/Sending.antt =====
-- src/exec.rs: what a socket that takes every message has sent.
use spraycc.Base.{ℕ, true, List, [], ◌∷◌, ◌++◌, ◌≡◌, refl, ap, ok, length, append_assoc, append-nil}
use spraycc.Ipc.{Message}
use spraycc.Exec.{Socket, write}

abbrev pub Takes : Socket → Type 0
Takes s = (n : ℕ) → s.takes n ≡ true

abbrev pub add : Socket → List Message → Socket
add s msgs = record s { sent = s.sent ++ msgs }

pub add-nil : (s : Socket) → add s [] ≡ s
add-nil s = ap (λ l. record s { sent = l }) (append-nil s.sent)

pub add-add : (s : Socket) (xs ys : List Message) → add (add s xs) ys ≡ add s (xs ++ ys)
add-add s xs ys = ap (λ l. record s { sent = l }) (append_assoc s.sent xs ys)

pub write_lem : (msg : Message) (s : Socket) → Takes s → write msg s ≡ ok (add s (msg ∷ []))
unfolding write
write_lem msg s t = rw (t (length s.sent)) refl
