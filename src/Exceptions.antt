-- ===== src/Exceptions.antt =====
-- bluewave/exceptions.py: the failures of a run and their statuses, beside the other exceptions that
-- the code catches. Messages are not modelled.
use blue_waving.Base.{String, Bool, true, false}

-- RunFailure and its subclasses; `malformed_csv` is transform.MalformedCsvError, a ParseFailed.
pub data RunFailure : Type 0 where
  run_failure auth_failed nav_failed report_timeout download_failed parse_failed ingest_failed :
      RunFailure
  schema_drift_error denylisted_selector malformed_csv : RunFailure

-- The class attribute `status`.
unfoldable pub status : RunFailure → String
status run_failure = "ingest_failed"
status auth_failed = "auth_failed"
status nav_failed = "nav_failed"
status report_timeout = "report_timeout"
status download_failed = "download_failed"
status parse_failed = "parse_failed"
status ingest_failed = "ingest_failed"
status schema_drift_error = "schema_drift"
status denylisted_selector = "nav_failed"
status malformed_csv = "parse_failed"

-- An exception, by its class. The Selenium ones down to `web_driver` are WebDriverExceptions, and
-- `out_of_fuel` is no exception of the program: it marks a loop that is cut short.
pub data Exn : Type 0 where
  failure : RunFailure → Exn
  no_such_element timeout not_interactable click_intercepted web_driver : Exn
  value_error runtime_error overflow_error os_error database_error other : Exn
  out_of_fuel : Exn

-- `except WebDriverException`
unfoldable pub is_web_driver : Exn → Bool
is_web_driver no_such_element = true
is_web_driver timeout = true
is_web_driver not_interactable = true
is_web_driver click_intercepted = true
is_web_driver web_driver = true
is_web_driver _ = false
