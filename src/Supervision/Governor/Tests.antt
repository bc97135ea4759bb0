-- ===== src/Supervision/Governor/Tests.antt =====
-- The governor at concrete inputs: two red ticks in a row open the checkpoint of account sessions.
use the_last_aibender.Prelude.{
  ◌*◌, ◌<◌, ◌≡◌, refl, Bool, true, List, [], ◌∷◌, inl, some, String, All, str_eq, length, take,
}
use the_last_aibender.Prelude.Maps.{get, put, values}
use the_last_aibender.Supervision.Types.{default_pressure_thresholds, normal, red, gib}
use the_last_aibender.Supervision.Pressure
use the_last_aibender.Supervision.Governor.{
  Event, registers, notes, ticks, run, step, tick, act, register, note_activity, create_governor,
}
use the_last_aibender.Supervision.Governor.Steps.{
  GovernorOptions, Governor, World, allow_account, recycle_all,
}
use the_last_aibender.Supervision.Governor.Accounts.{
  NoAccountDown, run-NoAccountDown, IsSpared, allowed_now, tick-IsSpared, verdict_of,
}
use the_last_aibender.Supervision.Governor.Reds.{checkpoint_needs_reds, verdicts}
use the_last_aibender.Supervision.Tests.{work, serve, local, fresh, heavy, alarmed}

abbrev pressed : GovernorOptions
pressed = record {
  has_recycle = true;
  has_hibernate = true;
  has_local_model = true;
  idle_window_ms = 1800000;
  resident_account_soft_ceiling = some 3;
  account_hibernation_red_ticks = 2;
}

abbrev relaxed : GovernorOptions
relaxed = record pressed { account_hibernation_red_ticks = 0 }

abbrev new_governor : GovernorOptions → Governor
new_governor o =
    create_governor o fresh
      (record { t = default_pressure_thresholds; h_free = 3; h_swap = gib; current = normal })

abbrev strained : World
strained = record {
  sampler = heavy;
  reading =
      some (record { pressure_level = 4; free_ram_pct = 5; swap_used_bytes = 0; pageout_rate = 0 });
  recycles = λ id. true;
  sheds = λ id. true;
  hibernates = λ id. true;
  resident_bytes = 5 * gib;
  resident_bytes_after = 0;
}

abbrev opening : List Event
opening =
    registers work ∷ registers serve ∷ registers local ∷ notes "work" 0 ∷ ticks strained 1000 ∷ []

abbrev is_work : String → Bool
is_work id = str_eq id "work"

run-NoAccountDown_example : NoAccountDown is_work (run (new_governor relaxed) opening)
unfolding create_governor values
run-NoAccountDown_example =
    run-NoAccountDown is_work (new_governor relaxed) opening (refl, (refl, (refl, (tt, (tt, tt)))))
      (record { consistent = tt; off = refl; spared = tt })

-- A governor with the three sessions, one of them hibernated, and one red tick behind it.
abbrev busy : Governor
busy = record {
  options = pressed;
  watchdog = fresh;
  pressure = alarmed;
  sessions = ("work", work) ∷ ("serve", serve) ∷ ("local", local) ∷ [];
  last_activity_ms = ("work", 0) ∷ [];
  hibernated = "local" ∷ [];
  last_pressure = red;
  consecutive_red_ticks = 1;
}

tick-IsSpared_example :
    All (IsSpared is_work (allowed_now busy strained)) (tick busy strained 2000000).0.hibernated
    × All (IsSpared is_work (allowed_now busy strained)) (tick busy strained 2000000).1.hibernated
unfolding values
tick-IsSpared_example =
    tick-IsSpared is_work busy strained 2000000 (refl, (refl, (refl, tt))) (inl refl, tt)

-- After `opening`, with its one red tick, a second one may checkpoint.
opened : allowed_now (run (new_governor pressed) opening) strained ≡ true
unfolding create_governor run step register note_activity tick act recycle_all put get values
    allow_account Pressure.evaluate Pressure.with_hysteresis Pressure.raw_state
opened = refl

checkpoint_needs_reds_example :
    let g = run (new_governor pressed) opening in
    let n = g.options.account_hibernation_red_ticks in
    let latest = take n (verdict_of g strained ∷ verdicts (new_governor pressed) opening []) in
    (g.options.has_hibernate ≡ true) × (0 < n) × (length latest ≡ n) × All (λ s. s ≡ red) latest
unfolding create_governor
checkpoint_needs_reds_example =
    checkpoint_needs_reds (new_governor pressed) opening strained refl opened
