-- ===== src/Start/Timers.antt =====
-- `startTrackerTimerTask` and `startTimerTask` around their jobs, and the end of both `Start`. `add_func`
-- is the error of cron's `AddFunc` for a schedule, if any, and `run` that of gin's `Run`.
use mathlib.Core.Option.{none-ne-some}
use eggdfs.Base.{
  ◌≡◌, sym, ◌∙◌, Bool, true, false, Option, none, some, ◌∷◌, Outcome, done, panic, Option-cases,
  inl, inr, panic-ne-done, ◌↔◌,
}
use eggdfs.Base.Text.{Text, bytes}

-- The error, and whether the schedule was started.
unfoldable pub scheduled : (Text → Option Text) → Text → Option Text × Bool
scheduled add_func spec = elim (add_func spec) [ some e ↦ (some e, false) | none ↦ (none, true) ]

-- `RepairSyncFail`, every half an hour.
unfoldable pub start_tracker_timer_task : (Text → Option Text) → Option Text × Bool
unfolding scheduled
start_tracker_timer_task add_func = scheduled add_func (bytes "0 0/30 * * * *")

-- `Status`, every five seconds.
unfoldable pub start_timer_task : (Text → Option Text) → Option Text × Bool
unfolding scheduled
start_timer_task add_func = scheduled add_func (bytes "*/5 * * * * *")

-- The server runs once the schedule stands; it returns only where it fails, and then the log panics.
unfoldable pub serve : Option Text × Bool → (Text → Option Text) → Text → Outcome {0} Unit
serve timer run port = elim timer.0 [
  | some e ↦ panic
  | none ↦ elim (run (b':' ∷ port)) [ some e ↦ panic | none ↦ done tt ]
]

-- A process ends without a panic exactly when its schedule was accepted and its server ended without
-- an error, and then the schedule had been started.
serve-scheduled :
    (add_func run : Text → Option Text) (spec port : Text)
    → ((serve (scheduled add_func spec) run port ≡ done tt)
        ↔ ((add_func spec ≡ none) × (run (b':' ∷ port) ≡ none)))
      × (serve (scheduled add_func spec) run port ≡ done tt → (scheduled add_func spec).1 ≡ true)
unfolding serve scheduled
serve-scheduled add_func run spec port = elim (Option-cases (add_func spec)) [
  | inr (e, at) ↦
      let fails : serve (scheduled add_func spec) run port ≡ panic = rw (serve, scheduled, at) in
      rw fails (
        ((λ h. absurd (panic-ne-done tt h)), λ h. absurd (none-ne-some e (sym h.0 ∙ at))),
        λ h. absurd (panic-ne-done tt h),
      )
  | inl at ↦ elim (Option-cases (run (b':' ∷ port))) [
    | inr (e, bad) ↦
        let fails : serve (scheduled add_func spec) run port ≡ panic =
          rw (serve, scheduled, at, bad) in
        rw fails (
          ((λ h. absurd (panic-ne-done tt h)), λ h. absurd (none-ne-some e (sym h.1 ∙ bad))),
          λ h. absurd (panic-ne-done tt h),
        )
    | inl good ↦ ((λ h. (at, good), λ h. rw (serve, scheduled, at, good)), λ h. rw (scheduled, at))
  ]
]
