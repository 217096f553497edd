-- ===== src/DryRun/Handler.antt =====
-- bluewave/routes.py, post_dry_run: the dry run of a date that is before today.
use blue_waving.Web.{lift, HttpError}
use blue_waving.Config.{load, ConfigFile, MultiFernet}
use blue_waving.DryRun.{DryWorld, dry_run, DryRunResult}
use blue_waving.Scheduler.{Surroundings}
use blue_waving.Base.{ℕ, Option, Text, Result, ok, ◌>>=◌}
use blue_waving.Routes.{dry_run_date}

-- The answer: the date and `to_dict` of the rest.
pub record DryRunReply : Type 0 where
  pub report_date : ℕ
  pub result : DryRunResult

-- The dry run loads the settings by itself.
unfoldable pub post_dry_run :
    Result HttpError Text
    → Surroundings
    → MultiFernet
    → ConfigFile
    → DryWorld
    → Option Text
    → Result HttpError DryRunReply
unfolding dry_run_date dry_run
post_dry_run gate w mf file world report_date = do
  user ← gate
  d ← dry_run_date w (load mf file) report_date
  stored ← lift (load mf file)
  result ← lift (dry_run world stored d)
  ok (record { report_date = d; result = result })
