-- ===== src/Watchdog/Monitor/Escalation.antt =====
-- How the stage of a monitor moves, and what a step calls.
use roborock_mqtt_loxone.Common.{
  ℕ, suc, ◌+◌, ◌-◌, ◌≤◌, ◌<◌, ◌≡◌, refl, ◌⊎◌, ◌∙◌, inl, inr, ap, leb, String, Bool, true, false,
  List, [], ◌∷◌, arith, length, ◌==◌, if◌then◌else◌, Bool-cases,
}
use roborock_mqtt_loxone.Watchdog.Health.{Config, assess}
use roborock_mqtt_loxone.Watchdog.Monitor.{
  Action, exit, Monitor, Tick, Progress, step, recover, escalate, restart, settle, report_at,
  is_failing, needs_recovery, ask_guard, join_reasons, stamped,
}

-- When the issue that a failing step deals with began.
abbrev pub issue_start : Tick → Monitor → ℕ
issue_start t m = if m.issue_since == 0 then t.now else m.issue_since

abbrev pub elapsed_at : Tick → Monitor → ℕ
elapsed_at t m = t.now - issue_start t m

abbrev pub exits : List Action → ℕ
exits [] = 0
exits (exit r ∷ rest) = suc (exits rest)
exits (_ ∷ rest) = exits rest

-- Whether the guard lets the process restart at a tick; without a guard it always may.
abbrev pub guard_allows : Tick → Monitor → Bool
guard_allows t m = (ask_guard t m.cfg m.guard).1

restart-stage : (t : Tick) (reason : String) (p : Progress) → (restart t reason p).monitor.stage ≡ 4
unfolding restart
restart-stage t reason p = ground arith

restart_climbs :
    (t : Tick) (reason : String) (p : Progress)
    → p.fired ≡ []
    → ((restart t reason p).monitor.stage ≡ 4) × (length (restart t reason p).fired ≤ 1)
unfolding restart
restart_climbs t reason p h = ground arith

restart_allowed :
    (t : Tick) (reason : String) (p : Progress)
    → p.fired ≡ []
    → 0 < exits (restart t reason p).fired
    → (ask_guard t p.monitor.cfg p.monitor.guard).1 ≡ true
unfolding restart
restart_allowed t reason p h e = ground arith

-- The fourth rung is taken only for a dead process, late enough, from below.
escalate_climbs :
    (t : Tick) (elapsed : ℕ) (reason : String) (p : Progress)
    → p.fired ≡ []
    → let q = escalate t elapsed reason p in
      (p.monitor.stage + length q.fired ≤ q.monitor.stage) × (length q.fired ≤ 1)
unfolding escalate
escalate_climbs t elapsed reason p h = ground (arith, restart_climbs t reason p h)

escalate_exit :
    (t : Tick) (elapsed : ℕ) (reason : String) (p : Progress)
    → p.fired ≡ []
    → 0 < exits (escalate t elapsed reason p).fired
    → (p.report.live ≡ false)
      × (p.monitor.cfg.restart_after ≤ elapsed)
      × (p.monitor.stage < 4)
      × ((ask_guard t p.monitor.cfg p.monitor.guard).1 ≡ true)
unfolding escalate
escalate_exit t elapsed reason p h e = ground (arith, restart_allowed t reason p h)

escalate-stage_le :
    (t : Tick) (elapsed : ℕ) (reason : String) (p : Progress)
    → p.monitor.stage ≤ 4
    → (escalate t elapsed reason p).monitor.stage ≤ 4
unfolding escalate
escalate-stage_le t elapsed reason p h = ground (arith, restart-stage t reason p)

escalate_dead :
    (t : Tick) (elapsed : ℕ) (reason : String) (p : Progress)
    → p.report.live ≡ false
    → p.monitor.cfg.restart_after ≤ elapsed
    → p.monitor.stage < 4
    → p.monitor.stage < (escalate t elapsed reason p).monitor.stage
unfolding escalate
escalate_dead t elapsed reason p dead late low = ground (arith, restart-stage t reason p)

restart-cfg :
    (t : Tick) (reason : String) (p : Progress) → (restart t reason p).monitor.cfg ≡ p.monitor.cfg
unfolding restart
restart-cfg t reason p = ground arith

escalate-cfg :
    (t : Tick) (elapsed : ℕ) (reason : String) (p : Progress)
    → (escalate t elapsed reason p).monitor.cfg ≡ p.monitor.cfg
unfolding escalate
escalate-cfg t elapsed reason p = ground (arith, restart-cfg t reason p)

-- What a failing step hands to the escalation.
abbrev pub alarmed : Tick → Monitor → Progress
alarmed t m = record {
  monitor = record m { healthy_streak = 0; issue_since = issue_start t m };
  report = report_at t m;
  fired = [];
}

abbrev reason_at : Tick → Monitor → String
reason_at t m = join_reasons (report_at t m).reasons

-- A step that finds a fault calls at most one callback, and raises the stage if it calls one; it
-- never lowers the stage.
step_one_action :
    (t : Tick) (m : Monitor)
    → is_failing t m ≡ true
    → (m.stage + length (step t m).fired ≤ (step t m).monitor.stage) × (length (step t m).fired ≤ 1)
unfolding step recover
step_one_action t m h = rw h (escalate_climbs t (elapsed_at t m) (reason_at t m) (alarmed t m) refl)

-- A step calls the exit callback only if the process is not live, the fault has lasted for
-- `restart_after`, the fourth rung was not taken before, and the guard allows one more restart.
pub exit_needs :
    (t : Tick) (m : Monitor)
    → 0 < exits (step t m).fired
    → ((report_at t m).live ≡ false)
      × (m.cfg.restart_after ≤ elapsed_at t m)
      × (m.stage < 4)
      × (guard_allows t m ≡ true)
unfolding step recover
exit_needs t m e = elim (Bool-cases (is_failing t m)) [
  | inl bad ↦ escalate_exit t (elapsed_at t m) (reason_at t m) (alarmed t m) refl (rw bad at e)
  | inr good ↦ let none_fired : 0 < 0 = rw good at e in absurd (omega arith)
]

settle-stage_le : (m : Monitor) → m.stage ≤ 4 → (settle m).stage ≤ 4
unfolding settle
settle-stage_le m h = ground arith

settle-cfg : (m : Monitor) → (settle m).cfg ≡ m.cfg
unfolding settle
settle-cfg m = ground arith

module _ (t : Tick) (m : Monitor) where
  abbrev climbed : Progress
  climbed = escalate t (elapsed_at t m) (reason_at t m) (alarmed t m)

  -- The monitor of a step, with a fault and without.
  step-stage :
      (step t m).monitor.stage
      ≡ (if is_failing t m then climbed.monitor.stage else (settle m).stage)
  unfolding step recover
  step-stage = elim (Bool-cases (is_failing t m)) [ inl h ↦ rw h | inr h ↦ rw h ]

  -- A step changes nothing in the configuration.
  pub step-cfg : (step t m).monitor.cfg ≡ m.cfg
  unfolding step recover
  step-cfg = elim (Bool-cases (is_failing t m)) [
    | inl h ↦ rw h (escalate-cfg t (elapsed_at t m) (reason_at t m) (alarmed t m))
    | inr h ↦ rw h (settle-cfg m)
  ]

  step-stage_le : m.stage ≤ 4 → (step t m).monitor.stage ≤ 4
  step-stage_le h = ground (
    arith,
    step-stage,
    settle-stage_le m,
    escalate-stage_le t (elapsed_at t m) (reason_at t m) (alarmed t m),
  )

-- The monitor after a list of ticks.
unfoldable pub run_steps : List Tick → Monitor → Monitor
run_steps [] m = m
run_steps (t ∷ ts) m = run_steps ts (step t m).monitor

-- The report of a tick says that the process is dead.
abbrev pub IsDead : Config → Tick → Type 0
IsDead cfg t = (assess t.clock (stamped t) cfg).live ≡ false

abbrev pub All {ℓ} : {A : Type 0} → (A → Type ℓ) → List A → Type ℓ
All P [] = Unit
All P (x ∷ xs) = P x × All P xs

escalate-issue_since :
    (t : Tick) (elapsed : ℕ) (reason : String) (p : Progress)
    → (escalate t elapsed reason p).monitor.issue_since ≡ p.monitor.issue_since
unfolding escalate restart
escalate-issue_since t elapsed reason p = ground arith

dead_failing : (t : Tick) (m : Monitor) → IsDead m.cfg t → is_failing t m ≡ true
unfolding needs_recovery
dead_failing t m h = ground arith

-- A step that finds the process dead, with a fault older than `restart_after`, takes a rung.
step_climbs :
    (t : Tick) (m : Monitor)
    → IsDead m.cfg t
    → m.cfg.restart_after ≤ elapsed_at t m
    → m.stage < 4
    → m.stage < (step t m).monitor.stage
step_climbs t m dead late low = ground (
  arith,
  step-stage t m,
  dead_failing t m dead,
  escalate_dead t (elapsed_at t m) (reason_at t m) (alarmed t m) dead late low,
)

step-issue_since :
    (t : Tick) (m : Monitor) → IsDead m.cfg t → (step t m).monitor.issue_since ≡ issue_start t m
unfolding step recover
step-issue_since t m h =
    rw (dead_failing t m h) (escalate-issue_since t (elapsed_at t m) (reason_at t m) (alarmed t m))

-- A monitor that deals with an issue since `since`, at a tick that finds the process dead.
module _ (t : Tick) (m : Monitor) (since : ℕ) (began : 0 < since)
    (kept : m.issue_since ≡ since) where
  dead-issue_since : IsDead m.cfg t → (step t m).monitor.issue_since ≡ since
  dead-issue_since dead = ground (arith, step-issue_since t m dead)

  -- A rung is taken, or the last one was.
  dead-stage :
      IsDead m.cfg t
      → since + m.cfg.restart_after ≤ t.now
      → m.stage ≤ 4
      → ((step t m).monitor.stage ≤ 4)
        × ((m.stage < (step t m).monitor.stage) ⊎ (4 ≤ (step t m).monitor.stage))
  dead-stage dead late low = ground (
    arith,
    step_climbs t m dead,
    step-stage_le t m low,
    step_one_action t m (dead_failing t m dead),
  )

dead_climb :
    (cfg : Config) (since : ℕ) (ts : List Tick) (m : Monitor)
    → m.cfg ≡ cfg
    → 0 < since
    → m.issue_since ≡ since
    → m.stage ≤ 4
    → 4 ≤ m.stage + length ts
    → All (λ t. IsDead cfg t × (since + cfg.restart_after ≤ t.now)) ts
    → (run_steps ts m).stage ≡ 4
unfolding run_steps
dead_climb cfg since [] m same began kept low many dead = omega arith
dead_climb cfg since (t ∷ ts) m same began kept low many (now, rest) =
    let dead : IsDead m.cfg t = rw same now.0 in
    let late : since + m.cfg.restart_after ≤ t.now = rw same now.1 in
    let up = dead-stage t m since began kept dead late low in
    dead_climb cfg since ts (step t m).monitor (step-cfg t m ∙ same) began
      (dead-issue_since t m since began kept dead) up.0 (omega arith) rest

-- Over ticks that all find the process dead, once the fault is `restart_after` old, at most four
-- ticks bring the monitor to its last stage. The age of the fault counts from the first tick since
-- the last recovery that found any fault, such as a cloud outage, and not from the first that found
-- the process dead.
pub escalation_complete :
    (ts : List Tick) (m : Monitor)
    → 0 < m.issue_since
    → m.stage ≤ 4
    → 4 ≤ m.stage + length ts
    → All (λ t. IsDead m.cfg t × (m.issue_since + m.cfg.restart_after ≤ t.now)) ts
    → (run_steps ts m).stage ≡ 4
escalation_complete ts m began low many dead =
    dead_climb m.cfg m.issue_since ts m refl began refl low many dead

-- The stage that a run of ticks without a fault leaves.
abbrev pub settled_stage : Config → ℕ → ℕ → ℕ
settled_stage cfg streak stage = if leb cfg.recovery_hysteresis streak then 0 else stage

-- None of the ticks finds a fault, whatever the monitor has gone through.
abbrev pub IsCalm : Config → Tick → Type 0
IsCalm cfg t = needs_recovery (stamped t) (assess t.clock (stamped t) cfg) ≡ false

step_calm :
    (t : Tick) (m : Monitor)
    → IsCalm m.cfg t
    → ((step t m).monitor.stage ≡ settled_stage m.cfg (m.healthy_streak + 1) m.stage)
      × ((step t m).monitor.healthy_streak ≡ m.healthy_streak + 1)
      × ((step t m).fired ≡ [])
unfolding step settle
step_calm t m calm = ground arith

calm_settles :
    (cfg : Config) (t : Tick) (ts : List Tick) (m : Monitor)
    → m.cfg ≡ cfg
    → All (IsCalm cfg) (t ∷ ts)
    → (run_steps (t ∷ ts) m).stage ≡ settled_stage cfg (m.healthy_streak + length (t ∷ ts)) m.stage
unfolding run_steps
calm_settles cfg t [] m same calm =
    ground (arith, step_calm t m (rw same calm.0), ap (λ (c : Config). c.recovery_hysteresis) same)
calm_settles cfg t (u ∷ ts) m same calm = ground (
  arith,
  step_calm t m (rw same calm.0),
  ap (λ (c : Config). c.recovery_hysteresis) same,
  calm_settles cfg u ts (step t m).monitor (step-cfg t m ∙ same) calm.1,
)

-- Ticks that find no fault bring the stage back to 0 once the streak of such ticks has reached
-- `recovery_hysteresis`, and a shorter streak leaves the stage as it was.
pub hysteresis_exact :
    (t : Tick) (ts : List Tick) (m : Monitor)
    → All (IsCalm m.cfg) (t ∷ ts)
    → (run_steps (t ∷ ts) m).stage
      ≡ (if leb m.cfg.recovery_hysteresis (m.healthy_streak + length (t ∷ ts)) then 0 else m.stage)
hysteresis_exact t ts m calm = calm_settles m.cfg t ts m refl calm
