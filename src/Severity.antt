-- ===== src/Severity.antt =====
-- The severities of events, alerts and incidents (`EVENT_SEVERITIES`).
use sentriqora.Base.{ℕ, Bool, ◌==◌, Text, units, text_eq, Option, none, some, if◌then◌else◌}

pub data Severity : Type 0 where
  info low medium high critical : Severity

-- `z.enum(['INFO', 'LOW', 'MEDIUM', 'HIGH', 'CRITICAL'])`
unfoldable pub severity_of_text : Text → Option Severity
unfolding text_eq
severity_of_text t =
    if text_eq t (units "INFO")
    then some info
    else if text_eq t (units "LOW")
    then some low
    else if text_eq t (units "MEDIUM")
    then some medium
    else if text_eq t (units "HIGH")
    then some high
    else if text_eq t (units "CRITICAL")
    then some critical
    else none

abbrev severity_number : Severity → ℕ
severity_number info = 0
severity_number low = 1
severity_number medium = 2
severity_number high = 3
severity_number critical = 4

abbrev pub same_severity : Severity → Severity → Bool
same_severity a b = severity_number a == severity_number b
