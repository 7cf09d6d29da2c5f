-- ===== src/Process/Tests.antt =====
-- A process that stops moving, and the theorems about src/openclaw_ecc_orchestrator/process on it.
use openclaw_ecc_orchestrato.Prelude.{◌≤◌, ◌≡◌, ◌↔◌, true, [], ◌∷◌, arith}
use openclaw_ecc_orchestrato.Process.Health.{
  absent, unknown, known, Sample, hung, Settings, new_monitor, start,
}
use openclaw_ecc_orchestrato.Process.Health.Streak.{all_shown, flat_streak, check_all, hung-streak}

abbrev settings : Settings
settings = record { interval_seconds = 120; flat_checks_for_hang = 2 }

abbrev quiet : Sample
quiet = record {
  alive = true;
  cpu = known 500;
  output = known 10;
  events = absent;
  worktree = known "digest";
  members = known (7 ∷ []);
}

abbrev blind : Sample
blind = record quiet { output = unknown }

hung-streak_example :
    ((check_all (quiet ∷ blind ∷ quiet ∷ quiet ∷ []) (start quiet (new_monitor settings))).state
      ≡ hung)
    ↔ (settings.flat_checks_for_hang
        ≤ flat_streak (all_shown settings quiet (quiet ∷ blind ∷ quiet ∷ quiet ∷ [])) 0)
hung-streak_example = hung-streak settings quiet (quiet ∷ blind ∷ quiet ∷ quiet ∷ []) (ground arith)
