-- ===== src/Status/Tests.antt =====
-- The stepper on concrete runs.
use pmvp.Prelude.{◌≢◌, arith}
use pmvp.Status.{processed, rejected}

processed-rejected : processed ≢ rejected
processed-rejected = λ e. ground arith
