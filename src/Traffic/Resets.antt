-- ===== src/Traffic/Resets.antt =====
-- When `trafficthread` resets the counters.
use yatb.Prelude.{
  true, false, not, ◌&&◌, ◌≡◌, refl, ap, ◌∙◌, inl, inr, Bool-cases, arith, ℤ, pos, negsuc,
}
use yatb.Text.{Bytes, codes, same, same_refl, substr}
use yatb.Text.Number.{atoi}
use yatb.Traffic.{Double, Calendar, equal_int, new_day, new_week, new_month, traffic_round}

equal_int_refl : (n : ℤ) → equal_int n n ≡ true
unfolding equal_int
equal_int_refl (pos n) = ground arith
equal_int_refl (negsuc n) = ground arith

module _ (double : Double) where
  new_day-again : (d : Bytes) (t : Calendar double) → same (new_day double d t).lastday d ≡ true
  unfolding new_day
  new_day-again d t = elim (Bool-cases (same t.lastday d)) [
    | inl e ↦ rw (e, new_day) e
    | inr e ↦ rw (e, new_day) (same_refl d)
  ]

  new_week-again :
      (d : Bytes) (w : ℤ) (t : Calendar double)
      → (not (equal_int (new_week double d w t).lastweek w) && same d (codes "Mon")) ≡ false
  unfolding new_week
  new_week-again d w t = elim (Bool-cases (not (equal_int t.lastweek w) && same d (codes "Mon"))) [
    | inl e ↦ rw (e, new_week, equal_int_refl w) refl
    | inr e ↦ rw (e, new_week) e
  ]

  new_month-again :
      (m : Bytes) (t : Calendar double) → same (new_month double m t).lastmonth m ≡ true
  unfolding new_month
  new_month-again m t = elim (Bool-cases (same t.lastmonth m)) [
    | inl e ↦ rw (e, new_month) e
    | inr e ↦ rw (e, new_month) (same_refl m)
  ]

  -- A later reset leaves the dates of the others.
  new_week-lastday :
      (d : Bytes) (w : ℤ) (t : Calendar double) → (new_week double d w t).lastday ≡ t.lastday
  unfolding new_week
  new_week-lastday d w t =
      elim (Bool-cases (not (equal_int t.lastweek w) && same d (codes "Mon"))) [
        | inl e ↦ rw (e, new_week) refl
        | inr e ↦ rw (e, new_week) refl
      ]

  new_month-dates :
      (m : Bytes) (t : Calendar double)
      → ((new_month double m t).lastday ≡ t.lastday)
        × ((new_month double m t).lastweek ≡ t.lastweek)
  unfolding new_month
  new_month-dates m t = elim (Bool-cases (same t.lastmonth m)) [
    | inl e ↦ (rw (e, new_month) refl, rw (e, new_month) refl)
    | inr e ↦ (rw (e, new_month) refl, rw (e, new_month) refl)
  ]

  -- A round that finds nothing new changes nothing.
  settled :
      (d m : Bytes) (w : ℤ) (t : Calendar double)
      → same t.lastday d ≡ true
      → (not (equal_int t.lastweek w) && same d (codes "Mon")) ≡ false
      → same t.lastmonth m ≡ true
      → new_month double m (new_week double d w (new_day double d t)) ≡ t
  unfolding new_month new_week new_day
  settled d m w t h k l = rw (h, k, l) refl

  -- However often `trafficthread` looks at the clock in one day, a counter is reset at most once: a
  -- second round with the same time changes nothing.
  pub traffic_round-again :
      (t : Calendar double) (ti : Bytes)
      → traffic_round double (traffic_round double t ti) ti ≡ traffic_round double t ti
  unfolding traffic_round
  traffic_round-again t ti =
      let d = substr ti 0 3 in
      let m = substr ti 4 3 in
      let w = atoi (substr ti 7 3) in
      let t1 = new_day double d t in
      let t2 = new_week double d w t1 in
      let t3 = new_month double m t2 in
      let dates = new_month-dates m t2 in
      settled d m w t3 (ap (λ x. same x d) (dates.0 ∙ new_week-lastday d w t1) ∙ new_day-again d t)
        (ap (λ x. not (equal_int x w) && same d (codes "Mon")) dates.1 ∙ new_week-again d w t1)
        (new_month-again m t2)
