-- ===== src/Platform/Unarmed/Services.antt =====
-- src/uds/static_config.rs: what the services of the engine leave of the update module, on the
-- platform's own tables.
use rust_foc.Common.{
  Bool, not, length, take, ◌==◌, if◌then◌else◌, drop, Option-cases, get_or, true, false, ℕ, List,
  Option, none, some, ◌≡◌, arith, inl, inr,
}
use rust_foc.Ota.Flash.{FlashDevice}
use rust_foc.Uds.Types.{Nrc}
use rust_foc.Platform.Tables.{
  held, all_zero, Board, uds_config, read_active_session, write_key_masks, rng_seed,
}
use rust_foc.Uds.Config.{err, Result, Crates, UdsConfig, PendingFn, RoutineSub, start, stop, result}
use rust_foc.Uds.Dtc.{handle_clear, handle_read}
use rust_foc.Uds.Security.{
  dispatch_0x27, expected_key, fallback_seed, generate_seed, parse_sa_subfunc, sa_request_seed,
  sa_send_key, settle_key,
}
use rust_foc.Uds.Services.{
  dispatch_0x10, dispatch_0x11, dispatch_0x22, dispatch_0x28, dispatch_0x2e, dispatch_0x31,
  dispatch_0x3e, enter_session, read_entry, routine_entry, write_entry,
}
use rust_foc.Uds.State.{Globals, UdsState, store_response}

module _ {F R : Type 0} (dev : FlashDevice F) (random_word : R → Option (List ℕ) × R) where
  -- The platform's tables over a queue.
  abbrev pub tables : List (Option (PendingFn (Board F R))) → UdsConfig (Board F R)
  tables queue = record (uds_config dev random_word) { pending_queue = queue }

  pub rng_seed-ota :
      (g : Globals (Board F R)) {r : List ℕ × Globals (Board F R)}
      → rng_seed dev random_word g ≡ some r
      → r.1.world.ota ≡ g.world.ota
  unfolding rng_seed fallback_seed
  rng_seed-ota g h = ground arith

  abbrev kept_with : Globals (Board F R) → Nrc → Option (Result (Unit {0}) × Globals (Board F R))
  kept_with g nrc = some (err nrc, g)

  refusals-globals :
      (bad zero1 zero2 zero3 : Bool) (nrc nrc' : Nrc) (g : Globals (Board F R))
      {r : Result (Unit {0}) × Globals (Board F R)}
      → (if bad
          then kept_with g nrc
          else if zero1
          then kept_with g nrc'
          else if zero2
          then kept_with g nrc'
          else if zero3
          then kept_with g nrc'
          else none)
        ≡ some r
      → r.1 ≡ g
  refusals-globals true zero1 zero2 zero3 nrc nrc' g h = ground arith
  refusals-globals false true zero2 zero3 nrc nrc' g h = ground arith
  refusals-globals false false true zero3 nrc nrc' g h = ground arith
  refusals-globals false false false true nrc nrc' g h = ground arith
  refusals-globals false false false false nrc nrc' g h = absurd (ground arith)

  write_key_masks-globals :
      (bytes : List ℕ) (g : Globals (Board F R)) {r : Result (Unit {0}) × Globals (Board F R)}
      → write_key_masks dev random_word held bytes g ≡ some r
      → r.1 ≡ g
  unfolding write_key_masks
  write_key_masks-globals bytes g h =
      refusals-globals (not (length bytes == 48)) (all_zero (take 16 bytes))
        (all_zero (take 16 (drop 16 bytes))) (all_zero (drop 32 bytes)) _ _ g h

  module _ (queue : List (Option (PendingFn (Board F R)))) (s : UdsState) (g : Globals (Board F R))
      (req : List ℕ) where
    pub dispatch_0x10-ota :
        {r : UdsState × Globals (Board F R)}
        → dispatch_0x10 (tables queue) s g req ≡ some r
        → r.1.world.ota ≡ g.world.ota
    unfolding dispatch_0x10 enter_session store_response
    dispatch_0x10-ota h = ground arith

    pub dispatch_0x11-ota :
        {r : UdsState × Globals (Board F R)}
        → dispatch_0x11 s g req ≡ some r
        → r.1.world.ota ≡ g.world.ota
    unfolding dispatch_0x11 store_response
    dispatch_0x11-ota h = ground arith

    pub dispatch_0x22-ota :
        {r : UdsState × Globals (Board F R)}
        → dispatch_0x22 (tables queue) s g req ≡ some r
        → r.1.world.ota ≡ g.world.ota
    unfolding dispatch_0x22 read_entry read_active_session store_response
    dispatch_0x22-ota h = ground arith

    pub dispatch_0x28-ota :
        {r : UdsState × Globals (Board F R)}
        → dispatch_0x28 s g req ≡ some r
        → r.1.world.ota ≡ g.world.ota
    unfolding dispatch_0x28 store_response
    dispatch_0x28-ota h = ground arith

    pub dispatch_0x2e-ota :
        {r : UdsState × Globals (Board F R)}
        → dispatch_0x2e (tables queue) s g req ≡ some r
        → r.1.world.ota ≡ g.world.ota
    unfolding dispatch_0x2e write_entry store_response
    dispatch_0x2e-ota h =
        elim (Option-cases (write_key_masks dev random_word held (drop 3 req) g)) [
          | inl e ↦ ground arith
          | inr (x, e) ↦ ground (arith, write_key_masks-globals (drop 3 req) g e)
        ]

    pub dispatch_0x31-ota :
        (sub : RoutineSub) {r : UdsState × Globals (Board F R)}
        → dispatch_0x31 (tables queue) s g req sub ≡ some r
        → r.1.world.ota ≡ g.world.ota
    unfolding dispatch_0x31 routine_entry store_response
    dispatch_0x31-ota start h = ground arith
    dispatch_0x31-ota stop h = ground arith
    dispatch_0x31-ota result h = ground arith

    pub dispatch_0x3e-ota :
        {r : UdsState × Globals (Board F R)}
        → dispatch_0x3e s g req ≡ some r
        → r.1.world.ota ≡ g.world.ota
    unfolding dispatch_0x3e store_response
    dispatch_0x3e-ota h = ground arith

    pub handle_clear-ota :
        {g' : Globals (Board F R)} → handle_clear g req ≡ some g' → g'.world.ota ≡ g.world.ota
    unfolding handle_clear store_response
    handle_clear-ota h = ground arith

    pub handle_read-ota :
        {g' : Globals (Board F R)} → handle_read g req ≡ some g' → g'.world.ota ≡ g.world.ota
    unfolding handle_read store_response
    handle_read-ota h = ground arith

    sa_request_seed-ota :
        (sal subfunc : ℕ) {r : UdsState × Globals (Board F R)}
        → sa_request_seed (tables queue) s g sal subfunc ≡ some r
        → r.1.world.ota ≡ g.world.ota
    unfolding sa_request_seed generate_seed store_response
    sa_request_seed-ota sal subfunc h = elim (Option-cases (rng_seed dev random_word g)) [
      | inl e ↦ ground arith
      | inr (x, e) ↦ ground (arith, rng_seed-ota g e)
    ]

    sa_send_key-ota :
        (crates : Crates) (sal subfunc : ℕ) {r : UdsState × Globals (Board F R)}
        → sa_send_key crates (tables queue) s g sal subfunc req ≡ some r
        → r.1.world.ota ≡ g.world.ota
    unfolding sa_send_key expected_key settle_key store_response
    sa_send_key-ota crates sal subfunc h = ground arith

    pub dispatch_0x27-ota :
        (crates : Crates) {r : UdsState × Globals (Board F R)}
        → dispatch_0x27 crates (tables queue) s g req ≡ some r
        → r.1.world.ota ≡ g.world.ota
    unfolding dispatch_0x27 store_response
    dispatch_0x27-ota crates {r = r} h = elim (Option-cases (parse_sa_subfunc (get_or req 1 0))) [
      | inl e ↦ ground arith
      | inr ((sal, true), e) ↦ ground (arith, sa_request_seed-ota sal (get_or req 1 0) {r = r})
      | inr ((sal, false), e) ↦ ground (arith, sa_send_key-ota crates sal (get_or req 1 0) {r = r})
    ]
