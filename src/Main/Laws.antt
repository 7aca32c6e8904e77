-- ===== src/Main/Laws.antt =====
-- src/main.rs: exit codes, the flags of the server, and the key that `init` leaves.
use spraycc.Base.{
  ℕ, ℤ, pos, negsuc, String, Bool, false, ◌&&◌, not, Option, none, some, List, ok, err, ◌≡◌, refl,
  ap, ◌<◌, ◌⊎◌, inl, inr, ◌↔◌, Option-cases, arith,
}
use spraycc.Config.Limits.{Limits}
use spraycc.Main.{
  Process, Program, Ending, exit, panic, main, server, run, cpus_of, finish, finish_client,
  start_server, Returned,
}

ExitCode : Process × Returned ℤ → Type 0
ExitCode r = (r.1 ≡ some (ok (pos 0))) ↔ ((finish_client r).1 ≡ exit (pos 0))

abbrev code_or : Returned ℤ → ℤ → ℤ
code_or (some (ok code)) other = code
code_or _ other = other

abbrev exit_of : Ending → ℤ → ℤ
exit_of (exit code) other = code
exit_of panic other = other

finish_client_lem : (r : Process × Returned ℤ) → ExitCode r
unfolding ExitCode
finish_client_lem (proc, none) = (cc, cc)
finish_client_lem (proc, some (err e)) = (cc, cc)
finish_client_lem (proc, some (ok (pos code))) = (
  λ e. ap (λ r. exit (code_or r (pos code))) e,
  λ e. ap (λ x. some (ok (exit_of x (pos code)))) e,
)
finish_client_lem (proc, some (ok (negsuc n))) = (cc, cc)

-- `spraycc run` exits with 0 exactly when the client returns 0.
pub main-run_iff :
    (p : Program) (args : List String) (proc : Process)
    → ((p.run_client args proc).1 ≡ some (ok (pos 0)))
      ↔ ((main p (run (some args)) proc).1 ≡ exit (pos 0))
unfolding main ExitCode
main-run_iff p args proc = finish_client_lem (p.run_client args proc)

not_both : (alt both : Bool) → (alt && not both) && both ≡ false
not_both alt both = ground arith

-- No positive number.
abbrev pub Invalid : (String → Option ℕ) → Option String → Type 0
Invalid parse none = ⊥
Invalid parse (some text) = (parse text ≡ none) ⊎ (parse text ≡ some 0)

-- No argument and no number, or a positive number.
abbrev pub Given : (String → Option ℕ) → Option String → Option ℕ → Type 0
Given parse none max_cpus = max_cpus ≡ none
Given parse (some text) max_cpus = (v : ℕ) × (0 < v) × (parse text ≡ some v) × (max_cpus ≡ some v)

cpus_cases :
    (parse : String → Option ℕ) (cpus : Option String)
    → ((cpus_of parse cpus ≡ none) × Invalid parse cpus)
      ⊎ ((max_cpus : Option ℕ) × (cpus_of parse cpus ≡ some max_cpus) × Given parse cpus max_cpus)
unfolding cpus_of
cpus_cases parse none = inr (none, refl, refl)
cpus_cases parse (some text) = elim (Option-cases (parse text)) [
  | inl garbled ↦ inl (rw (garbled, cpus_of) refl, inl garbled)
  | inr (ℕ.zero, parsed) ↦ inl (ground (arith, parsed), inr parsed)
  | inr (ℕ.suc v, parsed) ↦
      inr (some (ℕ.suc v), ground (arith, parsed), (ℕ.suc v, omega arith, parsed, refl))
]

-- `spraycc server` panics before it starts anything where `--cpus` is given and no positive number, and
-- otherwise starts the server with the number that is given, if any, and never with the alternate
-- start command beside both.
pub main-server_lem :
    (p : Program) (cpus : Option String) (alt both verbose : Bool) (proc : Process)
    → (Invalid p.parse_cpus cpus × (main p (server cpus alt both verbose) proc ≡ (proc, panic)))
      ⊎ ((max_cpus : Option ℕ) × (alt' : Bool) × (main p (server cpus alt both verbose) proc
            ≡ finish (p.run_server max_cpus alt' both verbose proc))
          × Given p.parse_cpus cpus max_cpus
          × (alt' ≡ (alt && not both))
          × (alt' && both ≡ false))
unfolding main start_server
main-server_lem p cpus alt both verbose proc = elim (cpus_cases p.parse_cpus cpus) [
  | inl (invalid, why) ↦ inl (why, rw (invalid, main) refl)
  | inr (max_cpus, valid, given) ↦
      inr (max_cpus, alt && not both, rw (valid, main) refl, given, refl, not_both alt both)
]
