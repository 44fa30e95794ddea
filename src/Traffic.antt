-- ===== src/Traffic.antt =====
-- src/counter.cc: `CCounter`, and src/tools.cc: `trafficcheck`, the limits on the traffic of a day, a
-- week and a month, with src/yatb.cc: the resets of `trafficthread`.
pub mod Check
pub mod Resets
use yatb.Prelude.{ℕ, Bool, true, false, not, ◌&&◌, if◌then◌else◌, ◌==◌, ℤ, pos, negsuc}
use yatb.Text.{Bytes, codes, same, substr}
use yatb.Text.Number.{atoi}

-- `a == b` for two integers.
unfoldable pub equal_int : ℤ → ℤ → Bool
equal_int (pos m) (pos n) = m == n
equal_int (pos m) (negsuc n) = false
equal_int (negsuc m) (pos n) = false
equal_int (negsuc m) (negsuc n) = m == n

-- The arithmetic of `double`: no law of it is used.
pub record Double : Type 1 where
  pub Carrier : Type 0
  pub of_nat : ℕ → Carrier
  pub add : Carrier → Carrier → Carrier
  pub mul : Carrier → Carrier → Carrier
  pub equal : Carrier → Carrier → Bool
  pub at_least : Carrier → Carrier → Bool

module _ (double : Double) where
  pub record Counter : Type 0 where
    pub send : double.Carrier
    pub recvd : double.Carrier

  unfoldable pub addsend : Counter → double.Carrier → Counter
  addsend c d = record c { send = double.add c.send d }

  unfoldable pub addrecvd : Counter → double.Carrier → Counter
  addrecvd c d = record c { recvd = double.add c.recvd d }

  unfoldable pub reset : Counter → Counter
  reset c = record c { recvd = double.of_nat 0; send = double.of_nat 0 }

  unfoldable pub gettotal : Counter → double.Carrier
  gettotal c = double.add c.recvd c.send

  -- The global counters.
  pub record Counters : Type 0 where
    pub total : Counter
    pub day : Counter
    pub week : Counter
    pub month : Counter

  -- `config.day_limit`, `config.week_limit` and `config.month_limit`, in gigabytes.
  pub record Limits : Type 0 where
    pub day_limit : double.Carrier
    pub week_limit : double.Carrier
    pub month_limit : double.Carrier

  -- `limit * 1024 * 1024 * 1024`.
  unfoldable pub gigabytes : double.Carrier → double.Carrier
  gigabytes limit =
      double.mul (double.mul (double.mul limit (double.of_nat 1024)) (double.of_nat 1024))
        (double.of_nat 1024)

  -- `trafficcheck`: is the traffic still allowed?
  unfoldable pub trafficcheck : Limits → Counters → Bool
  unfolding gigabytes gettotal
  trafficcheck config counters =
      let none_set =
        double.equal config.day_limit (double.of_nat 0)
        && (double.equal config.week_limit (double.of_nat 0)
            && double.equal config.month_limit (double.of_nat 0)) in
      let month =
        if not (double.equal config.month_limit (double.of_nat 0))
        then if double.at_least (gettotal counters.month) (gigabytes config.month_limit)
          then false
          else true
        else true in
      let week =
        if not (double.equal config.week_limit (double.of_nat 0))
        then if double.at_least (gettotal counters.week) (gigabytes config.week_limit)
          then false
          else month
        else month in
      if none_set
      then true
      else if not (double.equal config.day_limit (double.of_nat 0))
      then if double.at_least (gettotal counters.day) (gigabytes config.day_limit)
        then false
        else week
      else week

  -- The state of `trafficthread`: the globals `lastday`, `lastweek` and `lastmonth`, and the counters.
  pub record Calendar : Type 0 where
    pub lastday : Bytes
    pub lastweek : ℤ
    pub lastmonth : Bytes
    pub counters : Counters

  unfoldable pub new_day : Bytes → Calendar → Calendar
  unfolding reset
  new_day tmpday t =
      if not (same t.lastday tmpday)
      then record t {
        lastday = tmpday;
        counters = record t.counters { day = reset t.counters.day };
      }
      else t

  unfoldable pub new_week : Bytes → ℤ → Calendar → Calendar
  unfolding reset
  new_week tmpday tmpweek t =
      if not (equal_int t.lastweek tmpweek) && same tmpday (codes "Mon")
      then record t {
        lastweek = tmpweek;
        counters = record t.counters { week = reset t.counters.week };
      }
      else t

  unfoldable pub new_month : Bytes → Calendar → Calendar
  unfolding reset
  new_month tmpmonth t =
      if not (same t.lastmonth tmpmonth)
      then record t {
        lastmonth = tmpmonth;
        counters = record t.counters { month = reset t.counters.month };
      }
      else t

  -- One round of `trafficthread` at a time as `asctime` prints it. What it calls the week is the day of
  -- the month.
  unfoldable pub traffic_round : Calendar → Bytes → Calendar
  unfolding new_day new_week new_month atoi
  traffic_round t ti =
      let tmpday = substr ti 0 3 in
      let tmpmonth = substr ti 4 3 in
      let tmpweek = atoi (substr ti 7 3) in
      new_month tmpmonth (new_week tmpday tmpweek (new_day tmpday t))
