-- ===== src/Calculation/Tests.antt =====
-- Calculate Pay on a draft run of one worker, with a monthly salary.
use pmvp.Prelude.{false, none, some, [], ◌∷◌}
use pmvp.Text.{codes}
use pmvp.Status.{RunStatus}
use pmvp.Calculation.{PayRun, hourly_items, refresh_hourly_totals}
use pmvp.Fixtures.{june_inputs, day_of}

abbrev june_run : PayRun
june_run = record {
  rated = record {
    month = codes "June";
    year = 2026;
    status = some RunStatus.draft;
    statutory_rate = none;
  };
  is_raw = false;
  inputs = june_inputs ∷ [];
  entries = [];
  hourly = record {
    id = 12;
    year = 2026;
    paid_runs = [];
    roster = [];
    profiles = [];
    items = [];
    on_date = day_of 2026 6 1;
  };
  figures = hourly_items [];
  totals = refresh_hourly_totals [];
}
