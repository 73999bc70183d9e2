-- ===== src/Tests/Fixtures.antt =====
-- A small platform: the service table of src/uds/static_config.rs, no identifiers or routines, and
-- continuations that complete at once or never.
use rust_foc.Uds.Types.{sal1, pending, programming}
use rust_foc.Uds.Queue.{no_jobs, one_job}
use rust_foc.Uds.State.{zeroed, AesBlock, Globals}
use rust_foc.Uds.Config.{
  ServiceEntry, Machine, PendingFn, UdsConfig, ServiceHandler, Crates, session, ecu_reset,
  comm_control, security_access, request_download, transfer_data, transfer_exit,
}
use rust_foc.Common.{
  ◌&&◌, ◌==◌, ◌%◌, Bool, ◌+◌, replicate, ◌↔◌, List, ℕ, ◌≡◌, ◌∷◌, [], refl, arith, some, none, true,
  false,
}

unfoldable pub bytes_eq : List ℕ → List ℕ → Bool
bytes_eq [] [] = true
bytes_eq (a ∷ xs) (b ∷ ys) = (a == b) && bytes_eq xs ys
bytes_eq _ _ = false

pub bytes_eq_iff : (a b : List ℕ) → (bytes_eq a b ≡ true) ↔ (a ≡ b)
unfolding bytes_eq
bytes_eq_iff [] [] = (λ _. refl, λ _. refl)
bytes_eq_iff [] (b ∷ ys) = (λ h. cc, λ h. cc)
bytes_eq_iff (a ∷ xs) [] = (λ h. cc, λ h. cc)
bytes_eq_iff (a ∷ xs) (b ∷ ys) =
    (λ h. ground (arith, bytes_eq_iff xs ys), λ h. ground (arith, bytes_eq_iff xs ys))

-- A cipher that adds the key's first byte to the block's.
abbrev pub toy_cipher : AesBlock → AesBlock → AesBlock
toy_cipher [] block = block
toy_cipher (k ∷ _) [] = []
toy_cipher (k ∷ _) (b ∷ block) = (k + b) % 256 ∷ block

abbrev pub crates : Crates
crates = record { encrypt_block = toy_cipher; ct_eq = bytes_eq; ct_eq_iff = bytes_eq_iff }

abbrev pub entry : ℕ → ℕ → ℕ → ServiceHandler → ServiceEntry
entry sid access level handler = record {
  sid = sid;
  session_access = access;
  security_level = level;
  handler = handler;
}

abbrev pub services : List ServiceEntry
services =
    entry 0x10 0b111 0 session
    ∷ entry 0x11 0b111 0 ecu_reset
    ∷ entry 0x27 0b111 0 security_access
    ∷ entry 0x28 0b111 0 comm_control
    ∷ entry 0x34 0b010 1 request_download
    ∷ entry 0x36 0b010 1 transfer_data
    ∷ entry 0x37 0b010 1 transfer_exit
    ∷ []

-- A continuation that completes at once, and one that never does.
abbrev pub at_once : PendingFn (Unit {0})
at_once s g = some (s, g, true)

abbrev pub never : PendingFn (Unit {0})
never s g = some (s, g, false)

abbrev pub config : UdsConfig (Unit {0})
config = record {
  services = services;
  read_dids = [];
  write_dids = [];
  routines_start = [];
  routines_stop = [];
  routines_result = [];
  pending_queue = no_jobs;
  p2_server_ms = 50;
  request_timeout_ms = 5000;
  sa_max_attempts = 3;
  on_default_session_enter = none;
  on_programming_session_enter = none;
  on_extended_session_enter = none;
  seed_fn = none;
  key_fn = none;
  request_download_fn = some at_once;
  transfer_data_fn = some never;
  transfer_exit_fn = some at_once;
}

abbrev pub globals : Globals (Unit {0})
globals = record {
  response_buf = replicate 64 0;
  response_len = 0;
  reset_requested = false;
  reset_subfunc = 0;
  dtcs = replicate 8 none;
  seed_counter = 0;
  key_masks = replicate 16 7 ∷ replicate 16 8 ∷ replicate 16 9 ∷ [];
  world = tt;
}

abbrev pub fresh : Machine (Unit {0})
fresh = record { config = config; state = zeroed; globals = globals }

-- A seed of zeros was sent.
abbrev pub seeded : Machine (Unit {0})
seeded = record fresh { state = record zeroed { seed_sent = true } }

abbrev pub unlocked : Machine (Unit {0})
unlocked = record fresh { state = record zeroed { security = sal1 } }

abbrev pub programming_unlocked : Machine (Unit {0})
programming_unlocked = record fresh {
  state = record zeroed { session = programming; security = sal1 };
}

-- A job is pending.
abbrev pub busy : PendingFn (Unit {0}) → Machine (Unit {0})
busy f = record fresh {
  config = record config { pending_queue = one_job f };
  state = record zeroed { state = pending; pending_sid = 0x36 };
}
