-- ===== src/Ipc/Checks.antt =====
-- src/ipc.rs: the test of the target ids, as a function into Bool.
use spraycc.Base.{◌≡◌, refl, String, Bool, true, false, ◌&&◌, not, Option, some, [], ◌∷◌, str_eq}
use spraycc.Ipc.{TaskDetails, get_target_id}

-- `assert_ne!` and `assert_eq!` of two ids; a panic is a failure.
abbrev differ : Option String → Option String → Bool
differ (some a) (some b) = not (str_eq a b)
differ _ _ = false

abbrev agree : Option String → Option String → Bool
agree (some a) (some b) = str_eq a b
agree _ _ = false

unfoldable pub test_task_details_target : Bool
unfolding get_target_id
test_task_details_target =
    let wd : String = "/an/absolute/dir" in
    let cmd : String = "/path/to/binary" in
    let t1 : TaskDetails = record {
      working_dir = wd;
      cmd = cmd;
      args = "-c" ∷ "-o" ∷ "objs/foo.o" ∷ "-I" ∷ "../include" ∷ [];
      output_args = 2 ∷ [];
      env = [];
      priority_task = false;
    } in
    let t2 : TaskDetails = record {
      working_dir = wd;
      cmd = cmd;
      args = "-c" ∷ "-MF" ∷ "objs/foo.d" ∷ "objs/foo.o" ∷ "-I" ∷ "../include" ∷ [];
      output_args = 2 ∷ 3 ∷ [];
      env = [];
      priority_task = false;
    } in
    let t3 : TaskDetails = record {
      working_dir = wd;
      cmd = cmd;
      args = "-c" ∷ "-I" ∷ "../include" ∷ "-O3" ∷ "-o" ∷ "objs/foo.o" ∷ [];
      output_args = 5 ∷ [];
      env = [];
      priority_task = false;
    } in
    let t4 : TaskDetails = record {
      working_dir = wd;
      cmd = cmd;
      args = "run_test" ∷ "-test-name" ∷ "test1" ∷ [];
      output_args = [];
      env = [];
      priority_task = false;
    } in
    let t5 : TaskDetails = record {
      working_dir = wd;
      cmd = cmd;
      args = "run_test" ∷ "-test_name" ∷ "test1" ∷ "--silent" ∷ [];
      output_args = [];
      env = [];
      priority_task = false;
    } in
    let t6 : TaskDetails = record {
      working_dir = "/an/absolute/dir/extra_path";
      cmd = cmd;
      args = "run_test" ∷ "-test_name" ∷ "test1" ∷ [];
      output_args = [];
      env = [];
      priority_task = true;
    } in
    differ (get_target_id t1) (get_target_id t2)
    && agree (get_target_id t1) (get_target_id t3)
    && differ (get_target_id t1) (get_target_id t4)
    && differ (get_target_id t4) (get_target_id t5)
    && differ (get_target_id t5) (get_target_id t6)

passes : test_task_details_target ≡ true
unfolding test_task_details_target
passes = refl
