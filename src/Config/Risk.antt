-- ===== src/Config/Risk.antt =====
-- A higher risk never gets a milder status.
use sentinel_fs.Prelude.{ℕ, ◌≤◌, ◌≡◌, true, false, arith}
use sentinel_fs.Float64.{Float64, is_nan, flt}
use sentinel_fs.Config.{NodeStatus, healthy, warning, at_risk, critical, dead, risk_to_status}

abbrev pub severity : NodeStatus → ℕ
severity healthy = 0
severity warning = 1
severity at_risk = 2
severity critical = 3
severity dead = 4

-- If the risk `r` is a number and `s` is not below it: the status of `s` is at least as severe as that
-- of `r`. A risk that is NaN has the status `critical`.
pub risk_to_status_mono :
    (r s : Float64)
    → (is_nan r ≡ false
        → flt s r ≡ false
        → severity (risk_to_status r) ≤ severity (risk_to_status s))
      × (is_nan r ≡ true → risk_to_status r ≡ critical)
unfolding risk_to_status flt
risk_to_status_mono r s = ((λ nr h. ground arith), λ nr. ground arith)
