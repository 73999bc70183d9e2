-- ===== src/Tests/Platform.antt =====
-- The platform's own tables at a concrete request.
use rust_foc.Platform.Panics.{Reborrows, dispatch_sid-returns}
use rust_foc.Platform.Updates.{platform}
use rust_foc.Tests.Fixtures.{crates}
use rust_foc.Uds.Dispatch.{dispatch_sid, serve, route}
use rust_foc.Uds.Services.{dispatch_0x22, read_entry}
use rust_foc.Platform.Tables.{read_active_session}
use rust_foc.Uds.Config.{Machine, session_allowed}
use rust_foc.Platform.Keys.Laws.{init-store}
use rust_foc.Platform.Keys.{init, store}
use rust_foc.Uds.Config.{security_allowed}
use rust_foc.Platform.Tables.{default_key_masks, Board}
use rust_foc.Uds.State.{zeroed, Globals, UdsState}
use rust_foc.Common.{
  arith, ◌⊎◌, ◌+◌, ◌==◌, ◌%◌, if◌then◌else◌, Option, ℕ, ◌≡◌, refl, List, [], ◌∷◌, true, false, some,
  none, replicate,
}
use rust_foc.Uds.Types.{programming, sal1}
use rust_foc.Tests.Updates.{behaves, zeros, at_rest, memory}

-- A generator that counts, and does not answer every fourth time.
abbrev counter : ℕ → Option (List ℕ) × ℕ
counter n = (if n % 4 == 3 then none else some (n % 256 ∷ 0 ∷ 0 ∷ 0 ∷ []), n + 1)

abbrev ready : UdsState
ready = record zeroed { session = programming; security = sal1 }

abbrev board : Globals (Board (ℕ → ℕ) ℕ)
board = record {
  response_buf = replicate 64 0;
  response_len = 0;
  reset_requested = false;
  reset_subfunc = 0;
  dtcs = replicate 16 none;
  seed_counter = 0;
  key_masks = default_key_masks;
  world = record { ota = at_rest; rng = 0 };
}

ready-unlocked : security_allowed ready.security 1 ≡ true
unfolding security_allowed
ready-unlocked = refl

abbrev three_keys : List (List ℕ)
three_keys = replicate 16 1 ∷ replicate 16 2 ∷ replicate 16 0xFF ∷ []

init-store_example :
    (f' : ℕ → ℕ) × (store memory zeros three_keys ≡ (f', none))
    × (init memory counter f' 0 ≡ (three_keys, f', 0))
init-store_example =
    init-store memory behaves counter zeros 0 three_keys refl (refl, (refl, (refl, tt))) refl

-- A routine request without its last byte.
dispatch_sid-returns_example :
    ((m : Machine (Board (ℕ → ℕ) ℕ)) × (dispatch_sid crates
          (platform memory counter ready board)
          (0x31 ∷ 0x01 ∷ 0xFF ∷ [])
          5
        ≡ some m))
    ⊎ Reborrows (0x31 ∷ 0x01 ∷ 0xFF ∷ [])
dispatch_sid-returns_example =
    dispatch_sid-returns memory counter crates ready board (0x31 ∷ 0x01 ∷ 0xFF ∷ []) 5 (omega arith)

-- A read of the active session.
session_read-panics :
    dispatch_sid crates (platform memory counter ready board) (0x22 ∷ 0xF1 ∷ 0x86 ∷ []) 5 ≡ none
unfolding dispatch_sid serve route dispatch_0x22 read_entry read_active_session session_allowed
    security_allowed
session_read-panics = refl
