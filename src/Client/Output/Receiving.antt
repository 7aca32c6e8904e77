-- ===== src/Client/Output/Receiving.antt =====
-- src/client.rs: what the output messages of a task leave at the client.
use spraycc.Base.{
  ℕ, zero, suc, String, Bool, true, false, none, some, List, [], ◌∷◌, ◌++◌, ok, ◌≡◌, refl, sym, ap,
  ◌∙◌, get_elem?, set, length, all, ltb, length-set, arith, append_assoc, append-nil,
}
use spraycc.Base.Maps
use spraycc.Base.Maps.{Map}
use spraycc.Ipc.{OutputType, Message}
use spraycc.Ipc.Outputs.{
  is_output, stdout_of, stderr_of, stdout_of-append, stderr_of-append, file_step,
}
use spraycc.Client.Output.{
  LazyFile, file_name, file, none_left, Receiver, as_file, write_file, write_output, handle_msg,
  wait_for_status,
}
use spraycc.Client.Output.Files.{after}
use spraycc.Client.Output.Writing.{KeepsFiles, keeps_new, keeps_open}

-- Whether a file is open or can be created.
abbrev pub ready : (String → Bool) → LazyFile → Bool
ready creatable (file_name name) = creatable name
ready creatable (file name) = true
ready creatable none_left = false

all-get_elem? :
    (p : LazyFile → Bool) (xs : List LazyFile) (i : ℕ)
    → all p xs ≡ true
    → ltb i (length xs) ≡ true
    → (x : LazyFile) × (get_elem? xs i ≡ some x) × (p x ≡ true)
all-get_elem? p [] i h l = ground arith
all-get_elem? p (x ∷ xs) zero h l = (x, refl, ground arith)
all-get_elem? p (x ∷ xs) (suc i) h l = all-get_elem? p xs i (ground arith) (ground arith)

all-set :
    (p : LazyFile → Bool) (xs : List LazyFile) (i : ℕ) (v : LazyFile)
    → all p xs ≡ true
    → p v ≡ true
    → all p (set xs i v) ≡ true
all-set p [] i v h l = refl
all-set p (x ∷ xs) zero v h l = ground arith
all-set p (x ∷ xs) (suc i) v h l = ground (arith, all-set p xs i v)

-- A receiver whose files can all be written to, and what it has beyond an earlier one.
pub record Received (creatable : String → Bool) (r r' : Receiver) (msgs : List Message)
    : Type 0 where
  pub files_ready : all (ready creatable) r'.output_files ≡ true
  pub same_length : length r'.output_files ≡ length r.output_files
  pub more_out : r'.host.out ≡ (r.host.out ++ stdout_of msgs)
  pub more_errors : r'.host.errors ≡ (r.host.errors ++ stderr_of msgs)
  pub more_files : KeepsFiles r r' msgs

after-Received :
    (creatable : String → Bool) (idx : ℕ) (name : String) (content : List ℕ) (files : Map (List ℕ))
    (r : Receiver)
    → all (ready creatable) r.output_files ≡ true
    → KeepsFiles r
        (after idx name content files r)
        (Message.task_output (OutputType.file idx) content ∷ [])
    → Received creatable r
        (after idx name content files r)
        (Message.task_output (OutputType.file idx) content ∷ [])
after-Received creatable idx name content files r h keeps = record {
  files_ready = all-set (ready creatable) r.output_files idx (file name) h refl;
  same_length = length-set r.output_files idx (file name);
  more_out = sym (append-nil r.host.out);
  more_errors = sym (append-nil r.host.errors);
  more_files = keeps;
}

write_file_lem :
    (creatable : String → Bool) (idx : ℕ) (content : List ℕ) (r : Receiver) (lazy : LazyFile)
    → get_elem? r.output_files idx ≡ some lazy
    → ready creatable lazy ≡ true
    → all (ready creatable) r.output_files ≡ true
    → (r' : Receiver) × (write_file creatable idx content r ≡ ok r')
      × Received creatable r r' (Message.task_output (OutputType.file idx) content ∷ [])
unfolding write_file as_file
write_file_lem creatable idx content r (file_name name) at can h = (
  after idx name content (Maps.insert name [] r.host.files) r,
  rw (at, can) refl,
  after-Received creatable idx name content (Maps.insert name [] r.host.files) r h
      (keeps_new idx content r name at),
)
write_file_lem creatable idx content r (file name) at can h = (
  after idx name content r.host.files r,
  rw at refl,
  after-Received creatable idx name content r.host.files r h (keeps_open idx content r name at),
)
write_file_lem creatable idx content r none_left at can h = ground arith

one_output :
    (creatable : String → Bool) (msg : Message) (r : Receiver)
    → all (ready creatable) r.output_files ≡ true
    → is_output (length r.output_files) msg ≡ true
    → (r' : Receiver) × (handle_msg creatable msg r ≡ ok (none, r'))
      × Received creatable r r' (msg ∷ [])
unfolding handle_msg write_output
one_output creatable (Message.task_output OutputType.stdout content) r h o = (
  record r { host = record r.host { out = r.host.out ++ content } },
  refl,
  record {
    files_ready = h;
    same_length = refl;
    more_out = ap (λ l. r.host.out ++ l) (sym (append-nil content));
    more_errors = sym (append-nil r.host.errors);
    more_files = λ names old c d len held. held;
  },
)
one_output creatable (Message.task_output OutputType.stderr content) r h o = (
  record r { host = record r.host { errors = r.host.errors ++ content } },
  refl,
  record {
    files_ready = h;
    same_length = refl;
    more_out = sym (append-nil r.host.out);
    more_errors = ap (λ l. r.host.errors ++ l) (sym (append-nil content));
    more_files = λ names old c d len held. held;
  },
)
one_output creatable (Message.task_output (OutputType.file idx) content) r h o =
    let (lazy, at, can) = all-get_elem? (ready creatable) r.output_files idx h o in
    let (r', wrote, new) = write_file_lem creatable idx content r lazy at can h in
    (r', rw wrote refl, new)
one_output creatable _ r h o = ground arith

Received-nil :
    (creatable : String → Bool) (r : Receiver)
    → all (ready creatable) r.output_files ≡ true
    → Received creatable r r []
Received-nil creatable r h = record {
  files_ready = h;
  same_length = refl;
  more_out = sym (append-nil r.host.out);
  more_errors = sym (append-nil r.host.errors);
  more_files = λ names old c d len held. held;
}

chain :
    (base one rest : List ℕ)
    → {mid last whole : List ℕ} → mid ≡ (base ++ one)
    → last ≡ (mid ++ rest)
    → whole ≡ (one ++ rest)
    → last ≡ (base ++ whole)
chain base one rest e f g =
    f ∙ ap (λ l. l ++ rest) e ∙ append_assoc base one rest ∙ ap (λ l. base ++ l) (sym g)

Received-cons :
    (creatable : String → Bool) (r mid last : Receiver) (msg : Message) (msgs : List Message)
    → Received creatable r mid (msg ∷ [])
    → Received creatable mid last msgs
    → Received creatable r last (msg ∷ msgs)
Received-cons creatable r mid last msg msgs one more = record {
  files_ready = more.files_ready;
  same_length = more.same_length ∙ one.same_length;
  more_out =
      chain r.host.out (stdout_of (msg ∷ [])) (stdout_of msgs) one.more_out more.more_out
        (stdout_of-append (msg ∷ []) msgs);
  more_errors =
      chain r.host.errors (stderr_of (msg ∷ [])) (stderr_of msgs) one.more_errors more.more_errors
        (stderr_of-append (msg ∷ []) msgs);
  more_files = λ names old c d len held.
      more.more_files names old (λ i. file_step i msg (c i)) d (len ∙ sym one.same_length)
        (one.more_files names old c d len held);
}

pub outputs_received :
    (creatable : String → Bool) (outs rest : List Message) (ends : Bool) (r : Receiver)
    → all (ready creatable) r.output_files ≡ true
    → all (is_output (length r.output_files)) outs ≡ true
    → (r' : Receiver) × (wait_for_status creatable (outs ++ rest) ends r
        ≡ wait_for_status creatable rest ends r')
      × Received creatable r r' outs
unfolding wait_for_status
outputs_received creatable [] rest ends r h o = (r, refl, Received-nil creatable r h)
outputs_received creatable (msg ∷ outs) rest ends r h o =
    let (mid, step, one) = one_output creatable msg r h (ground (arith, o)) in
    let (last, steps, more) =
      outputs_received creatable outs rest ends mid one.files_ready
        (ap (λ n. all (is_output n) outs) one.same_length ∙ ground (arith, o)) in
    (last, rw step steps, Received-cons creatable r mid last msg outs one more)
