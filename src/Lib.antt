-- ===== src/Lib.antt =====
-- BlueWave: a worker that fetches a door-access report from BlueWeb once a day, turns its CSV into
-- rows and inserts them into MySQL, each event once. An Orchestrator queues report dates and runs
-- them one at a time on a thread; run_job drives the browser, transforms the file, inserts the rows
-- and records the run; the settings are kept encrypted in a SQLite file.
--
-- Which file models which part, with the names of the source:
--   Base            lists, texts as lists of code points, results, Boolean tests
--   Exceptions      bluewave/exceptions.py and the other exceptions that the code tells apart
--   Datetime        strptime and strftime as bluewave/transform.py and bluewave/dedup.py use them
--   Dedup           bluewave/dedup.py
--   Row, Transform  bluewave/transform.py
--   Config          bluewave/config.py; Config/Saving has the statements of save one by one
--   Runs            bluewave/runs.py, with the unique keys of bluewave/schema.py
--   Sink            bluewave/sink.py
--   RunJob          bluewave/orchestrator.py, run_job
--   Orchestrator    bluewave/orchestrator.py, the class Orchestrator
--   Web             bluewave/web.py, the check of the environment, and what a handler raises
--   Web/App         bluewave/web.py, create_app and main: what a process serves
--   Auth            bluewave/auth.py
--   Scheduler       bluewave/scheduler.py, its start with the audit table of the server
--   Routes          bluewave/routes.py, post_run, the date of post_dry_run, and post_catchup
--   Routes/Settings bluewave/routes.py, post_config, and triple_probe of bluewave/probes.py; its Form is
--                   what ConfigPayload accepts, its Probed puts the three probes in
--   System          the Orchestrator with run_job as its job, and a database: what the calls and the
--                   steps of the worker do to both, in any order
--   Routes/Health   bluewave/routes.py, healthz and the time of the next run
--   Routes/Listing  bluewave/routes.py, get_runs, get_run and _bootstrap_audit_table
--   Routes/Html     the pieces of a page, and _esc of bluewave/routes.py
--   Routes/Pages, Routes/Dashboard, Routes/ConfigPage, Routes/Views
--                   bluewave/routes.py, the pages and their handlers
--   Routes/Trials   bluewave/routes.py, test_bluewave and test_mysql with their payloads
--   Web/Entry, Web/Gate   bluewave/web.py, main, the gate before the docs and the filter of the log
--   DryRun          bluewave/dryrun.py, and DryRun/Handler post_dry_run of bluewave/routes.py
--   Probes          bluewave/probes.py
--   Tools           bluewave/rotate_config.py, bluewave/hashpw.py, bluewave/screenshots.py and
--                   bluewave/logging_setup.py; Tools/Hashpw is main of bluewave/hashpw.py
--   Action          code that acts on a state and may raise, with what it ensures and reaches
--   Selectors       bluewave/selectors.py
--   Driver          bluewave/driver.py, SafeDriver, build_chrome_options and build_driver, over a record of
--                   Selenium's calls
--   Login           bluewave/login.py; Login/Cli is save_screenshot and main
--   Scrape          bluewave/scrape.py
--   Browse          the browser's part of run_job, put in place of its parameter
--   ColumnTypes, Schema   bluewave/schema.py; Schema/Tables has the statements and a server that keeps
--                   the tables they create
--   Examples        the theorems at concrete inputs
--
-- Parameters: SHA-256, bcrypt, itsdangerous, the timezone database, Fernet, APScheduler, the probes,
-- Selenium with its waits, the download directory, the records that csv.reader gives and what reading
-- raises behind them, the clock, the log levels of uvicorn, and what the server refuses.
-- A database is a list of rows with the unique keys of the schema; a session is what is committed and
-- what the connection sees, so that a missing rollback shows. A date is its ordinal. The queue is a
-- state that the sections under the lock and the steps of the worker thread change, in any order.
--
-- How the parts meet: RunJob composes Transform, Sink and Runs on one session; Browse composes Login and
-- Scrape inside the life of the browser and fills the parameter of RunJob; the queue only decides
-- which dates are run; Scheduler and Routes put dates into the queue, and Routes/Settings saves to the
-- store of Config and has the Scheduler read it again. Web/App loads that
-- store, starts the Scheduler on it and serves. System runs the jobs of the queue on one database, to
-- whose tables no other process writes.
--
-- Fuel: `chunks` splits on fuel that is the number of rows, which is enough as each chunk takes at
-- least one; `jobs` and `steps` count steps of the worker, and `Drains` says how many it takes.
--
-- `await_file` takes at most a round for each half second of its timeout and one more, and where the
-- clock does not go back it is not cut short. How long a round takes is not bounded: a look at the
-- directory may take any time.
--
-- Not modelled: the style sheet and the scripts of the pages, how FastAPI finds a
-- handler and uvicorn serves, bluewave/keygen.py and bluewave/db.py, which only call libraries,
-- and configure_logging, which nothing calls. The texts of messages are left out.
pub mod Base
pub mod Exceptions
pub mod Datetime
pub mod Dedup
pub mod Row
pub mod Transform
pub mod Config
pub mod Runs
pub mod Sink
pub mod RunJob
pub mod Orchestrator
pub mod System
pub mod Web
pub mod Auth
pub mod Scheduler
pub mod Routes
pub mod DryRun
pub mod ColumnTypes
pub mod Schema
pub mod Action
pub mod Selectors
pub mod Driver
pub mod Login
pub mod Scrape
pub mod Browse
pub mod Tools
pub mod Probes
pub mod Examples
