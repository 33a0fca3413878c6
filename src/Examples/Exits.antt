-- ===== src/Examples/Exits.antt =====
-- Ends of runs and answers of the notification service (apps/sentinel-cli).
use adguard_sentinel.Base.{◌≡◌, refl, some}
use adguard_sentinel.Model.Run.{NotificationStatus}
use adguard_sentinel.Store.Record.{status_of}
use adguard_sentinel.Cli.Response.{classify_response}
use adguard_sentinel.Cli.Promises.{delivered_iff}

delivered_iff_example :
    status_of (classify_response 200 (some (record { status = 1; request = "p1" })))
    ≡ NotificationStatus.delivered
delivered_iff_example =
    (delivered_iff 200 (record { status = 1; request = "p1" })).0.1 (refl, refl, refl)
