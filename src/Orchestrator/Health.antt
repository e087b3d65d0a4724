-- ===== src/Orchestrator/Health.antt =====
-- orchestrator/health.py: the state that `_run_loop` keeps. The waiting between checks and the
-- thread are not modelled; a probe (HTTP, TCP or nsenter) is its outcome.
use pycrate.Base.{
  ℕ, suc, ◌+◌, ◌-◌, ◌≤◌, ◌≡◌, Bool, true, false, not, ◌==◌, String, List, [], ◌∷◌, ◌++◌, arith, ltb,
  leb, str_eq, length, length-drop-le, drop, any, Bool-cases, inl, inr, if◌then◌else◌,
}
use pycrate.Base.Exec.{Result, ok, err}

pub data HealthStatus : Type 0 where
  starting healthy unhealthy none_configured : HealthStatus

pub record HealthResult : Type 0 where
  pub passed : Bool
  pub message : String

pub record HealthChecker : Type 0 where
  pub exec_cmd : String
  pub http_url : String
  pub tcp_port : ℕ
  pub retries : ℕ
  pub status : HealthStatus
  pub consecutive_failures : ℕ
  pub results : List HealthResult
  -- The statuses with which `on_status_change` was called, the last first.
  pub notified : List HealthStatus

-- What the probes would return, or the text of what they raise.
pub record Probes : Type 0 where
  pub http : Result String (Bool × String)
  pub tcp : Result String (Bool × String)
  pub exec : Result String (Bool × String)

abbrev pub outcome : Result String (Bool × String) → HealthResult
outcome (ok (passed, message)) = record { passed = passed; message = message }
outcome (err message) = record { passed = false; message = message }

unfoldable pub perform_check : HealthChecker → Probes → HealthResult
perform_check c p =
    if not (str_eq c.http_url "")
    then outcome p.http
    else if not (c.tcp_port == 0)
    then outcome p.tcp
    else if not (str_eq c.exec_cmd "")
    then outcome p.exec
    else record { passed = true; message = "no check configured" }

abbrev pub same_status : HealthStatus → HealthStatus → Bool
same_status starting starting = true
same_status healthy healthy = true
same_status unhealthy unhealthy = true
same_status none_configured none_configured = true
same_status _ _ = false

-- `if len(r) > 50: r = r[-50:]`
abbrev pub keep_last_50 : List HealthResult → List HealthResult
keep_last_50 r = if ltb 50 (length r) then drop (length r - 50) r else r

abbrev pub judged : HealthChecker → Bool → HealthChecker
judged c true = record c { consecutive_failures = 0; status = healthy }
judged c false =
    let failures = c.consecutive_failures + 1 in
    record c {
      consecutive_failures = failures;
      status = if leb c.retries failures then unhealthy else c.status;
    }

abbrev pub notify : HealthStatus → HealthChecker → HealthChecker
notify old_status c =
    if same_status old_status c.status then c else record c { notified = c.status ∷ c.notified }

-- One turn of the loop, with the result of its check.
unfoldable pub take_result : HealthResult → HealthChecker → HealthChecker
take_result result c =
    notify c.status
      (judged (record c { results = keep_last_50 (c.results ++ result ∷ []) }) result.passed)

-- The turns of the loop, over the results of the checks, the last first.
unfoldable pub run_loop : List HealthResult → HealthChecker → HealthChecker
unfolding take_result
run_loop [] c = c
run_loop (r ∷ older) c = take_result r (run_loop older c)

-- A checker before its first check.
abbrev pub IsNew : HealthChecker → Type 0
IsNew c =
    (c.status ≡ starting) × (c.consecutive_failures ≡ 0) × (c.results ≡ []) × (c.notified ≡ [])

-- The failures since the last check that passed.
abbrev pub failing : List HealthResult → ℕ
failing [] = 0
failing (r ∷ older) = if r.passed then 0 else suc (failing older)

-- The status that the history alone gives.
abbrev pub status_of : ℕ → List HealthResult → HealthStatus
status_of retries history =
    if leb retries (failing history)
    then unhealthy
    else if any (λ r. r.passed) history
    then healthy
    else starting

abbrev told : HealthChecker → Bool
told c = elim c.notified [ [] ↦ same_status c.status starting | s ∷ rest ↦ same_status c.status s ]

-- From a new checker, the last call of `on_status_change` had the present status, or there was no
-- call and the status is `starting`.
run_loop-told :
    (history : List HealthResult) (c : HealthChecker) → IsNew c → told (run_loop history c) ≡ true
unfolding run_loop
run_loop-told [] c new = ground arith
run_loop-told (r ∷ older) c new = ground (arith, run_loop-told older c new)

kept-le : (r xs : List HealthResult) → length (keep_last_50 (xs ++ r)) ≤ 50
kept-le r xs = elim (Bool-cases (ltb 50 (length (xs ++ r)))) [
  | inl e ↦ rw (e, keep_last_50) (length-drop-le (length (xs ++ r) - 50) 50 (xs ++ r) (omega arith))
  | inr e ↦ rw (e, keep_last_50) (ground arith)
]

-- From a new checker, at most fifty results are kept.
run_loop-results :
    (history : List HealthResult) (c : HealthChecker)
    → IsNew c
    → length (run_loop history c).results ≤ 50
unfolding run_loop
run_loop-results [] c new = ground arith
run_loop-results (r ∷ older) c new =
    ground (arith, run_loop-results older c new, kept-le (r ∷ []) (run_loop older c).results)
