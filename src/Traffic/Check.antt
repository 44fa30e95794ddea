-- ===== src/Traffic/Check.antt =====
-- What `trafficcheck` decides.
use yatb.Prelude.{Bool, not, ◌&&◌, ◌||◌, ◌≡◌, arith}
use yatb.Traffic.{Double, Counter, Counters, Limits, gettotal, gigabytes, trafficcheck}

module _ (double : Double) where
  -- A limit is reached if it is set and the traffic is at least as many gigabytes.
  abbrev pub limit_reached : double.Carrier → Counter double → Bool
  limit_reached limit counter =
      not (double.equal limit (double.of_nat 0))
      && double.at_least (gettotal double counter) (gigabytes double limit)

  -- Traffic is allowed exactly while none of the three limits is reached, where a limit of 0 is
  -- none and a limit is reached when what was sent and received is at least as many gigabytes.
  pub trafficcheck_lem :
      (config : Limits double) (counters : Counters double)
      → trafficcheck double config counters
        ≡ not (
            limit_reached config.day_limit counters.day
            || (limit_reached config.week_limit counters.week
                || limit_reached config.month_limit counters.month))
  unfolding trafficcheck
  trafficcheck_lem config counters = ground arith
