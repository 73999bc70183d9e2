-- ===== src/Tests/Access.antt =====
-- The theorems on access at concrete requests.

use rust_foc.Uds.Effect.{Entered}
use rust_foc.Uds.Requests.{dispatch_sid-transfer_exit_refused}
use rust_foc.Uds.Types.{locked, extended, sal1, idle, session_from_u8}
use rust_foc.Uds.Access.{dispatch_sid-security_raise, Unlocks}
use rust_foc.Uds.Services.{enter_session, dispatch_0x10}
use rust_foc.Uds.Sessions.{dispatch_sid-session_change, dispatch_sid-attempts_bounded}
use rust_foc.Tests.Fixtures.{
  entry, programming_unlocked, unlocked, config, seeded, crates, globals, bytes_eq,
}
use rust_foc.Common.{◌<◌, ◌≤◌, ◌⊎◌}
use rust_foc.Uds.Config.{transfer_exit}
use rust_foc.Uds.Config.{security_allowed, session_allowed}
use rust_foc.Uds.State.{response, store_response}
use rust_foc.Uds.Security.{
  sal_session_allowed, generate_key, expected_key, settle_key, sa_send_key, parse_sa_subfunc,
  dispatch_0x27,
}
use rust_foc.Uds.Dispatch.{dispatch_0x37, route, serve, dispatch_sid}
use rust_foc.Common.{replicate, List, ℕ, ◌≡◌, ◌∷◌, [], refl, arith}

-- The key that the cipher derives from the seed of zeros.
abbrev unlock : List ℕ
unlock = 0x27 ∷ 0x02 ∷ 7 ∷ replicate 15 0

dispatch_sid-security_raise_example :
    Unlocks crates config seeded.state globals unlock (record seeded.state { security = sal1 })
unfolding dispatch_sid serve route dispatch_0x27 parse_sa_subfunc sa_send_key settle_key
    expected_key generate_key store_response session_allowed security_allowed sal_session_allowed
    bytes_eq
dispatch_sid-security_raise_example =
    dispatch_sid-security_raise crates seeded unlock 5 refl (omega arith)

dispatch_sid-session_change_example :
    Entered unlocked.state (record unlocked.state { session = extended; security = locked })
unfolding dispatch_sid serve route dispatch_0x10 session_from_u8 enter_session store_response
    session_allowed security_allowed
dispatch_sid-session_change_example =
    dispatch_sid-session_change crates unlocked (0x10 ∷ 0x03 ∷ []) 5 refl (λ e. cc)

dispatch_sid-attempts_bounded_example : (1 ≤ 3) × ((0 < 3) ⊎ (◌≡◌ {A = ℕ} 1 3) ⊎ (◌≡◌ {A = ℕ} 1 0))
unfolding dispatch_sid serve route dispatch_0x27 parse_sa_subfunc sa_send_key settle_key
    expected_key generate_key store_response session_allowed security_allowed sal_session_allowed
    bytes_eq
dispatch_sid-attempts_bounded_example =
    dispatch_sid-attempts_bounded crates seeded (0x27 ∷ 0x02 ∷ replicate 16 0) 5 (omega arith)
      (omega arith) refl

dispatch_sid-transfer_exit_refused_example :
    (response (store_response (0x7F ∷ 0x37 ∷ 0x13 ∷ []) globals) ≡ 0x7F ∷ 0x37 ∷ 0x13 ∷ [])
    × (config ≡ config)
    × (idle ≡ idle)
unfolding dispatch_sid serve route dispatch_0x37 store_response session_allowed security_allowed
dispatch_sid-transfer_exit_refused_example =
    dispatch_sid-transfer_exit_refused crates programming_unlocked 0x37 [] 5
      (entry 0x37 0b010 1 transfer_exit) refl refl refl refl refl (omega arith) refl
