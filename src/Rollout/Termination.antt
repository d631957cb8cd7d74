-- ===== src/Rollout/Termination.antt =====
-- The wait of rollout.go for an instance ends.
use fox_fleet.Prelude.{
  ℕ, zero, suc, ◌+◌, ◌-◌, ◌*◌, ◌≤◌, ◌<◌, ◌≡◌, ◌≢◌, String, false, arith, inl, inr, Bool-cases,
}
use fox_fleet.Rollout.{
  Settings, Outside, out_of_fuel, wait_loop, wait_healthy, is_healthy, second,
  default_health_interval,
}

-- What the clock, the contexts and the timers of Go do: time does not go back, the clock reads it,
-- and where a timer that waits comes before a context, the context's end is still ahead when the
-- wait begins, and the wait has passed.
pub record Clock {W : Type 0} (o : Outside W) : Type 0 where
  pub time : W → ℕ
  pub health_check-le : (id : String) (w : W) → time w ≤ time (o.plugin.health_check id w).1
  pub now-le : (w : W) → time w ≤ time (o.now w).1
  pub now_reads : (w : W) → (o.now w).0 ≤ time (o.now w).1
  pub timer_first :
      (deadline wait : ℕ) (w : W)
      → (o.done_first deadline wait w).0 ≡ false
      → 0 < wait
      → (time w < deadline) × (time w + wait ≤ time (o.done_first deadline wait w).1)

rounds_left :
    (fuel step deadline t : ℕ) → deadline + step ≤ t + suc fuel * step → t < deadline → 0 < fuel
rounds_left zero step deadline t enough ahead = absurd (omega arith)
rounds_left (suc fuel) step deadline t enough ahead = omega arith

rounds_pos : (fuel step n : ℕ) → 0 < step → n + 2 * step ≤ fuel * step → 0 < fuel
rounds_pos zero step n pos enough = absurd (omega arith)
rounds_pos (suc fuel) step n pos enough = omega arith

module _ {W : Type 0} (o : Outside W) (c : Settings) (k : Clock o) (step : ℕ) (pos : 0 < step)
    (paced : (t : ℕ) → step ≤ c.health_interval t) where
  wait_loop-ends :
      (fuel deadline start : ℕ) (id : String) (w : W)
      → 0 < fuel
      → deadline + step ≤ k.time w + fuel * step
      → (wait_loop o c fuel deadline start id w).0 ≢ out_of_fuel
  unfolding wait_loop
  wait_loop-ends zero deadline start id w some enough = absurd (omega arith)
  wait_loop-ends (suc fuel) deadline start id w some enough =
      let (status, w1) = o.plugin.health_check id w in
      let (t, w2) = o.now w1 in
      let wait = c.health_interval (t - start) in
      let (done, w3) = o.done_first deadline wait w2 in
      let long : 0 < wait = omega (arith, paced (t - start)) in
      let there : k.time w ≤ k.time w2 = omega (arith, k.health_check-le id w, k.now-le w1) in
      elim (Bool-cases (is_healthy status)) [
        | inl up ↦ rw up (λ e. cc)
        | inr down ↦ elim (Bool-cases done) [
          | inl over ↦ rw (down, over) (λ e. cc)
          | inr waits ↦
              let (ahead, passed) = k.timer_first deadline wait w2 waits long in
              rw (down, waits)
                (wait_loop-ends fuel deadline start id w3
                  (rounds_left fuel step deadline (k.time w2) (omega arith) ahead)
                  (omega (arith, paced (t - start))))
        ]
      ]

  -- The wait ends with an answer, not for want of fuel, where no pause is shorter than `step` and the
  -- rounds' steps make up the timeout and two steps more.
  pub wait_healthy-ends :
      (fuel : ℕ) (id : String) (w : W)
      → c.health_timeout + 2 * step ≤ fuel * step
      → (wait_healthy o c fuel id w).0 ≢ out_of_fuel
  unfolding wait_healthy
  wait_healthy-ends fuel id w enough =
      let (created, w1) = o.now w in
      let (start, w2) = o.now w1 in
      wait_loop-ends fuel (created + c.health_timeout) start id w2
        (rounds_pos fuel step c.health_timeout pos enough)
        (omega (arith, k.now_reads w, k.now-le w1))

-- The pauses that the source falls back on.
pub default_paced : (t : ℕ) → 2 * second ≤ default_health_interval t
unfolding default_health_interval
default_paced t = ground arith
