-- ===== src/D1/Kept.antt =====
-- The unsaved commits of src/d1/mod.rs over any steps of the service.
use mathlib.Core.Option
use openworkers_runner.Common.{Option, String, [], false, nat_eq, none, option_eq, string_eq, ℕ}
use openworkers_runner.D1.{Service}

-- A service that has just started, over such files and snapshots.
abbrev pub started : (String → Option ℕ) → (String → ℕ) → Service
started files archive = record {
  disk_low = false;
  databases = [];
  pass = [];
  current = none;
  files = files;
  archive = archive;
  now = 0;
}
