-- ===== src/History/Laws.antt =====
-- src/history.rs: what a write of the history file leaves for the next load, target by target.
use spraycc.Base.{
  ℕ, String, true, Option, some, ◌≡◌, refl, ap, ◌∙◌, Result, ok, err, ◌>>=◌, ◌>>◌, require,
}
use spraycc.Base.Maps
use spraycc.Base.Maps.{Map}
use spraycc.History.{
  other, Timing, History, merge, is_recent, purge, Json, IoError, Home, persist, unwrap_or_default,
  read_history_file, load_history_internal, load_current_history, write_history_file_internal,
  write_history_file,
}

-- What serde_json documents of a struct that derives both traits: what it writes, it reads back.
abbrev pub ReadsBack : Json → History → Type 0
ReadsBack json h =
    (text : String) × (json.to_vec_pretty h ≡ some text) × (json.from_str text ≡ some h)

abbrev pub recorded : History → String → Option Timing
recorded h target = Maps.lookup target h.history

merge-purge :
    (now : ℕ) (target : String) (old new : History)
    → Maps.DistinctKeys old.history
    → Maps.DistinctKeys new.history
    → recorded (purge now (merge old new)) target
      ≡ Maps.keep_if (is_recent now) (Maps.or_else (recorded new target) (recorded old target))
unfolding merge purge
merge-purge now target old new d e =
    Maps.lookup-retain (is_recent now) target (Maps.extend old.history new.history)
      (Maps.extend-DistinctKeys old.history new.history d)
    ∙ ap (Maps.keep_if (is_recent now)) (Maps.lookup-extend target old.history new.history e)

abbrev pub loaded : (json : Json) → Home → History
loaded json home = load_current_history json (some home)

read_written :
    (json : Json) (home : Home) (text : String) (h : History)
    → home.can_read ≡ true
    → json.from_str text ≡ some h
    → read_history_file json (record home { file = some text }) ≡ ok h
unfolding read_history_file
read_written json home text h can back = rw (can, back) refl

load_written :
    (json : Json) (home : Home) (text : String) (h : History)
    → home.can_read ≡ true
    → json.from_str text ≡ some h
    → load_current_history json (some (record home { file = some text })) ≡ h
unfolding load_current_history load_history_internal unwrap_or_default
load_written json home text h can back =
    ap
      (λ (r : Result IoError History).
        unwrap_or_default (elim r [ ok history ↦ ok history | err e ↦ err e ]))
      (read_written json home text h can back)

persist-some :
    (home : Home) (text : String)
    → home.can_write ≡ true
    → home.can_rename ≡ true
    → persist home (some text) ≡ ok (record home { file = some text })
unfolding persist
persist-some home text w r = rw (w, r) refl

-- Where serde_json reads back the history that it is to write, no key stands twice in the history written nor in
-- the one that a load gives before, and the file can be read, created, written and renamed to,
-- `write_history_file` succeeds, and what a load gives for a target afterwards is the entry of the
-- history written or else the one that a load gave before, if that entry is less than half a year
-- old, and nothing otherwise.
pub write_history_file_lem :
    (json : Json) (home : Home) (history : History) (now : ℕ) (target : String)
    → ReadsBack json (purge now (merge (loaded json home) history))
    → home.can_read ≡ true
    → home.can_create ≡ true
    → home.can_write ≡ true
    → home.can_rename ≡ true
    → Maps.DistinctKeys (loaded json home).history
    → Maps.DistinctKeys history.history
    → (home' : Home) × (write_history_file json history now (some home) ≡ ok (some home'))
      × (recorded (loaded json home') target
          ≡ Maps.keep_if
              (is_recent now)
              (Maps.or_else (recorded history target) (recorded (loaded json home) target)))
unfolding write_history_file write_history_file_internal load_current_history
write_history_file_lem json home history now target back can create write rename d e =
    let all = purge now (merge (loaded json home) history) in
    let text = back.0 in
    let made = back.1 in
    let read = back.2 in
    (
      record home { file = some text },
      ap (λ m. m >>= λ h. ok (some h))
          (ap (λ b. require b other >> persist home (json.to_vec_pretty all)) create
            ∙ ap (persist home) made
            ∙ persist-some home text write rename),
      ap (λ h. recorded h target) (load_written json home text all can read)
          ∙ merge-purge now target (loaded json home) history d e,
    )
