-- ===== src/Tests.antt =====
-- Runs of the definitions on concrete data, and the theorems at concrete inputs.
mod Reports
mod Files
mod Registry
mod Boot
mod Jobs
mod Requests
mod Journeys
mod Sealed
mod Tokens
mod Engines
mod Operators
mod Probes
mod Workers
mod Callers
mod Orders
use file_scanner.Base.{ltb, nat_eq, not, ℕ}
use file_scanner.Base.Value.{Floats}

-- Whole numbers in place of the floats.
abbrev pub floats : Floats
floats = record {
  F = ℕ;
  gt = λ a b. ltb b a;
  truthy = λ n. not (nat_eq n 0);
  zero_f = 0;
  round4 = λ n. n;
}
