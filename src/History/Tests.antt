-- ===== src/History/Tests.antt =====
-- src/history.rs: a history file with an old and a recent entry, and a run that adds one.
use spraycc.Base.{ℕ, ◌+◌, ◌≡◌, refl, str_eq, true, some, [], ◌∷◌, ok, if◌then◌else◌}
use spraycc.Base.Maps
use spraycc.History.{
  History, Json, Home, merge, purge, is_recent, six_months, load_current_history,
  write_history_file,
}
use spraycc.History.Laws.{loaded, recorded, write_history_file_lem}

abbrev now : ℕ
now = six_months + 10

abbrev before : History
before = record {
  version = 1;
  history =
      ("old.o", record { elapsed = 5; as_of = 3 })
      ∷ ("kept.o", record { elapsed = 6; as_of = 11 })
      ∷ [];
}

abbrev new_entries : History
new_entries = record { version = 1; history = ("new.o", record { elapsed = 7; as_of = now }) ∷ [] }

abbrev all_entries : History
all_entries = purge now (merge before new_entries)

abbrev json : Json
json = record {
  from_str = λ text. if str_eq text "after" then some all_entries else some before;
  to_vec_pretty = λ h. some "after";
}

abbrev home : Home
home = record {
  file = some "before";
  can_read = true;
  can_create = true;
  can_write = true;
  can_rename = true;
}

write_history_file_lem_example :
    (home' : Home) × (write_history_file json new_entries now (some home) ≡ ok (some home'))
    × (recorded (loaded json home') "old.o"
        ≡ Maps.keep_if
            (is_recent now)
            (Maps.or_else (recorded new_entries "old.o") (recorded (loaded json home) "old.o")))
unfolding load_current_history Maps.lookup purge merge
write_history_file_lem_example =
    write_history_file_lem json home new_entries now "old.o" ("after", refl, refl) refl refl refl
      refl (refl, (refl, tt)) (refl, tt)
