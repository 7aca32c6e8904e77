-- ===== src/History/Checks.antt =====
-- src/history.rs: the tests of the file, as functions into Bool, and that they pass with any crate that
-- reads back what it wrote. The clock stands still in a test.
use spraycc.Base.{
  ℕ, ◌+◌, ◌*◌, ◌≡◌, refl, String, Bool, true, false, ◌&&◌, Option, none, some, Result, ok, err,
  ◌==◌, ltb, arith,
}
use spraycc.Base.Maps
use spraycc.History.{
  History, Json, Home, IoError, default, update, get, merge, purge, persist, unwrap_or_default,
  read_history_file, load_history_internal, write_history_file_internal,
}

abbrev secs : ℕ → ℕ
secs n = n * 1_000_000_000

-- `History::test_update`
unfoldable pub test_update : History → String → ℕ → ℕ → History
test_update h target elapsed as_of = record h {
  history = Maps.insert target (record { elapsed = elapsed; as_of = as_of }) h.history;
}

-- A temporary directory.
abbrev pub new_dir : Home
new_dir = record {
  file = none;
  can_read = true;
  can_create = true;
  can_write = true;
  can_rename = true;
}

-- `assert_eq!(h.get(target), expected)`
abbrev same_time : Option ℕ → Option ℕ → Bool
same_time none none = true
same_time (some a) (some b) = a == b
same_time _ _ = false

abbrev pub on_ok : {A : Type 0} → Result IoError A → (A → Bool) → Bool
on_ok (ok a) check = check a
on_ok (err e) check = false

module _ (json : Json) (now : ℕ) where
  unfoldable pub test_read_write_history : Bool
  unfolding update get write_history_file_internal load_history_internal
  test_read_write_history =
      let h = update (update default "foo.o" (secs 5) now) "bar.o" (secs 55) now in
      on_ok (write_history_file_internal json h now new_dir) (λ home_dir.
        on_ok (load_history_internal json home_dir) (λ htest.
          same_time (get htest "foo.o") (some (secs 5))
          && same_time (get htest "bar.o") (some (secs 55))))

  unfoldable pub test_merge_history : ℕ → ℕ → Bool
  unfolding update get test_update write_history_file_internal load_history_internal
  test_merge_history six_mos_ago year_ago =
      let h2 =
        test_update
          (test_update
            (test_update (update default "fuz_test" (secs 321) now) "foo.o" (secs 7) six_mos_ago)
            "bar.o" (secs 7) year_ago)
          "wayold" (secs 7) year_ago in
      let h = update (update default "foo.o" (secs 5) now) "bar.o" (secs 55) now in
      on_ok (write_history_file_internal json h2 now new_dir) (λ home_dir.
        on_ok (write_history_file_internal json h now home_dir) (λ home_dir'.
          on_ok (load_history_internal json home_dir') (λ htest.
            same_time (get htest "foo.o") (some (secs 5))
            && same_time (get htest "bar.o") (some (secs 55))
            && same_time (get htest "fuz_test") (some (secs 321))
            && same_time (get htest "wayold") none)))

-- serde_json reads back what it wrote.
abbrev ReadsBack : Json → Type 0
ReadsBack json =
    (h : History)
    → (text : String) × (json.to_vec_pretty h ≡ some text) × (json.from_str text ≡ some h)

recent : (now : ℕ) → ltb now (now + 15_811_200_000_000_000) ≡ true
recent now = ground arith

test_read_write_history_lem :
    (json : Json) (now : ℕ) → ReadsBack json → test_read_write_history json now ≡ true
unfolding test_read_write_history update get merge purge persist unwrap_or_default read_history_file
    load_history_internal write_history_file_internal Maps.insert Maps.lookup Maps.extend
    Maps.retain
test_read_write_history_lem json now back =
    let h = update (update default "foo.o" (secs 5) now) "bar.o" (secs 55) now in
    let (text, wrote, read) = back h in rw (recent now, wrote, read) refl

-- Six months are 183 days here, and the entries are 180 and 360 days old.
test_merge_history_lem :
    (json : Json) (now six_mos_ago year_ago : ℕ)
    → ReadsBack json
    → ltb now (six_mos_ago + 15_811_200_000_000_000) ≡ true
    → ltb now (year_ago + 15_811_200_000_000_000) ≡ false
    → test_merge_history json now six_mos_ago year_ago ≡ true
unfolding test_merge_history update get merge purge persist unwrap_or_default read_history_file
    load_history_internal write_history_file_internal Maps.insert Maps.lookup Maps.extend
    Maps.retain test_update
test_merge_history_lem json now six_mos_ago year_ago back half whole =
    let h₁ = test_update (update default "fuz_test" (secs 321) now) "foo.o" (secs 7) six_mos_ago in
    let h₂ =
      update (update (update default "fuz_test" (secs 321) now) "foo.o" (secs 5) now) "bar.o"
        (secs 55) now in
    let (text₁, wrote₁, read₁) = back h₁ in
    let (text₂, wrote₂, read₂) = back h₂ in
    rw (recent now, half, whole, wrote₁, read₁, recent now, wrote₂, read₂) refl
