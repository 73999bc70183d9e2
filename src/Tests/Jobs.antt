-- ===== src/Tests/Jobs.antt =====
-- The theorems on the queue at concrete machines.
use rust_foc.Uds.Types.{pending}
use rust_foc.Uds.Tick.{tick_never_gives_up, tick_completes}
use rust_foc.Uds.Histories.{run-QueueInv}
use rust_foc.Uds.State.{store_response, zeroed}
use rust_foc.Tests.Fixtures.{globals, crates, at_once, config, busy, fresh, never}
use rust_foc.Uds.Requests.{tick_at, step, run}
use rust_foc.Uds.Pending.{
  send_response_pending, p2_star_timeout, p2_timeout, announce, run_jobs, tick,
}
use rust_foc.Uds.Queue.{one_job, QueueInv, KeepsState, PlatformKeeps}
use rust_foc.Common.{List, ℕ, ◌≡◌, ◌∷◌, [], refl, arith, some, true, false}

keeps : PlatformKeeps config
keeps = record {
  download = λ s g s' g' b e. ground arith;
  transfer = λ s g s' g' b e. ground arith;
  exit = λ s g s' g' b e. ground arith;
}

never-KeepsState : KeepsState never
never-KeepsState s g s' g' b e = ground arith

abbrev download : List ℕ
download = 0x34 ∷ 0x00 ∷ 4 ∷ 0 ∷ 0 ∷ 0 ∷ []

busy_completes :
    tick (busy at_once) 7
    ≡ some (record fresh { state = record zeroed { pending_sid = 0x36; response_pending = true } })
busy_completes = tick_completes (busy at_once) 7 at_once refl refl refl

tick_never_gives_up_example :
    (pending ≡ pending) × (one_job never ≡ one_job never) × (false ≡ false)
unfolding tick run_jobs announce p2_timeout p2_star_timeout send_response_pending store_response
tick_never_gives_up_example =
    tick_never_gives_up (busy never) 100000 never (omega arith) (omega arith) never-KeepsState refl
      refl refl refl

run-QueueInv_example : QueueInv fresh
unfolding run step tick
run-QueueInv_example =
    run-QueueInv crates config globals (tick_at 3 ∷ tick_at 4 ∷ []) keeps refl refl
