-- ===== src/Ipc/Printing.antt =====
-- src/ipc.rs: the Debug text of a message. How numbers, the details of a task and the type of an output
-- are printed is a parameter.
use spraycc.Base.{
  ℕ, ℤ, ◌≡◌, ◌≢◌, refl, ap, String, ◌<>◌, Option, none, some, List, length, negsuc, Option-cases,
  inl, inr, arith,
}
use mathlib.Core.Option
use spraycc.Ipc.{TaskDetails, OutputType, Message}
use spraycc.Ipc.OutputType.{stdout, stderr, file}
use spraycc.Ipc.Message.{
  your_obedient_servant, task, task_output, task_failed, task_done, cancel_task, piss_off, dropped,
}

-- `{}` of integers and of f64, for a duration in seconds, the derived `{:?}`, and String::from_utf8.
pub record Printer : Type 0 where
  pub number : ℕ → String
  pub i32 : ℤ → String
  pub as_secs_f64 : ℕ → String
  pub details : TaskDetails → String
  pub output_type : OutputType → String
  pub from_utf8 : List ℕ → Option String

module _ (p : Printer) where
  -- The text has as many bytes as the content.
  fmt_output : OutputType → List ℕ → Option String
  fmt_output stderr content =
      Option.map
        (λ x.
          "TaskOutput "
          <> (p.output_type stderr <> (", length " <> (p.number (length content) <> (": " <> x)))))
        (p.from_utf8 content)
  fmt_output output_type content =
      some
        ("TaskOutput " <> (p.output_type output_type <> (", length " <> p.number (length content))))

  -- `unwrap_or(-1)`
  unwrap_or_minus_one : Option ℤ → ℤ
  unwrap_or_minus_one none = negsuc 0
  unwrap_or_minus_one (some code) = code

  -- `none` is the panic of `unwrap`.
  unfoldable pub fmt : Message → Option String
  unfolding fmt_output unwrap_or_minus_one
  fmt (your_obedient_servant access_code user_code) =
      some ("YourObedientServant: " <> (p.number access_code <> (" / " <> p.number user_code)))
  fmt (task access_code user_code details) = some (
      "Task: code "
      <> (p.number access_code
          <> (" / " <> (p.number user_code <> (", details: " <> p.details details)))))
  fmt (task_output output_type content) = fmt_output output_type content
  fmt (task_failed error_message) = some ("TaskDone, error: " <> error_message)
  fmt (task_done exit_code target_id run_time send_time) = some (
      "TaskDone, "
      <> (target_id
          <> (": exit code "
              <> (p.i32 (unwrap_or_minus_one exit_code)
                  <> (", runtime "
                      <> (p.as_secs_f64 run_time <> (", " <> p.as_secs_f64 send_time)))))))
  fmt cancel_task = some "CancelTask"
  fmt piss_off = some "PissOff"
  fmt dropped = some "Dropped"

  -- Only a standard error that is no UTF-8 makes printing panic.
  pub fmt_panics :
      (msg : Message)
      → fmt msg ≡ none
      → (content : List ℕ) × (msg ≡ task_output stderr content) × (p.from_utf8 content ≡ none)
  unfolding fmt fmt_output
  fmt_panics (task_output stderr content) h = elim (Option-cases (p.from_utf8 content)) [
    | inl e ↦ (content, refl, e)
    | inr (x, e) ↦ ground (arith, h, e)
  ]
  fmt_panics _ h = cc

  -- Of the content of a file or of a standard output, the text tells the length and nothing else.
  pub fmt-length :
      (output_type : OutputType) (a b : List ℕ)
      → output_type ≢ stderr
      → length a ≡ length b
      → fmt (task_output output_type a) ≡ fmt (task_output output_type b)
  unfolding fmt fmt_output
  fmt-length stderr a b other same = absurd (other refl)
  fmt-length stdout a b other same =
      ap (λ n. some ("TaskOutput " <> (p.output_type stdout <> (", length " <> p.number n)))) same
  fmt-length (file idx) a b other same =
      ap (λ n. some ("TaskOutput " <> (p.output_type (file idx) <> (", length " <> p.number n))))
        same
