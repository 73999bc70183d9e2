-- ===== src/Platform/Panics.antt =====
-- src/uds/static_config.rs: the requests that can panic on the platform's own tables.
use rust_foc.Common.{
  ap, Bool, true, Bool-cases, ==_iff, sym, ◌∙◌, ℕ, ◌≡◌, ◌≤◌, ◌⊎◌, ◌≢◌, ◌==◌, inl, inr, refl, arith,
  List, [], ◌∷◌, Option, none, some, Option-cases, get_or, length, be16, drop, find,
}
use rust_foc.Ota.Flash.{FlashDevice}
use rust_foc.Platform.Tables.{Board, held, rng_seed, uds_config, write_key_masks}
use rust_foc.Platform.Updates.{platform}
use rust_foc.Uds.Types.{incorrect_message_length_or_invalid_format}
use rust_foc.Uds.Config.{
  ServiceHandler, err, Crates, DidReadEntry, DidWriteEntry, Machine, ServiceEntry, read_data_by_id,
  write_data_by_id,
}
use rust_foc.Uds.Dispatch.{dispatch_sid, find_service}
use rust_foc.Uds.State.{Globals, UdsState}
use rust_foc.Uds.Totality.{DidPanics, PlatformReturns, dispatch_sid-panics, reading, writing}

-- A read of the active session, or a write of three key masks.
abbrev pub Reborrows : List ℕ → Type 0
Reborrows req =
    (get_or req 0 0 ≡ 0x22 × length req ≡ 3 × be16 (get_or req 1 0) (get_or req 2 0) ≡ 0xF186)
    ⊎ (get_or req 0 0 ≡ 0x2E
        × length (drop 3 req) ≡ 48
        × be16 (get_or req 1 0) (get_or req 2 0) ≡ 0xF180)

find_one :
    {A : Type 0} (test : A → Bool) (x e : A)
    → find test (x ∷ []) ≡ some e
    → (test x ≡ true) × (x ≡ e)
find_one test x e h = elim (Bool-cases (test x)) [
  | inl hit ↦ (hit, ground (arith, hit, h))
  | inr miss ↦ absurd (ground (arith, miss, h))
]

module _ {F R : Type 0} (dev : FlashDevice F) (random_word : R → Option (List ℕ) × R) where
  rng_seed-returns : (g : Globals (Board F R)) → rng_seed dev random_word g ≢ none
  unfolding rng_seed
  rng_seed-returns g h = absurd (ground arith)

  uds_config-PlatformReturns : PlatformReturns (uds_config dev random_word)
  uds_config-PlatformReturns = record {
    routine_start = ((λ bytes g h. cc), tt);
    routine_stop = ((λ bytes g h. cc), tt);
    routine_result = ((λ bytes g h. cc), tt);
    hook_default = tt;
    hook_programming = tt;
    hook_extended = tt;
    seed = rng_seed-returns;
    key = tt;
  }

  write_key_masks-none :
      (bytes : List ℕ) (g : Globals (Board F R))
      → write_key_masks dev random_word held bytes g ≡ none
      → length bytes ≡ 48
  unfolding write_key_masks
  write_key_masks-none bytes g h = elim (Bool-cases (length bytes == 48)) [
    | inl whole ↦ (==_iff (length bytes) 48).0 whole
    | inr other ↦
        let refused : write_key_masks dev random_word held bytes g
            ≡ some (err incorrect_message_length_or_invalid_format, g) =
          rw other refl in
        absurd (ground (arith, refused, h))
  ]

  found-read :
      (s : UdsState) (g : Globals (Board F R)) (sid : ℕ) (e : ServiceEntry)
      → find_service (platform dev random_word s g) sid ≡ some e
      → e.handler ≡ read_data_by_id
      → sid ≡ 0x22
  found-read s g sid e found h = ground arith

  found-write :
      (s : UdsState) (g : Globals (Board F R)) (sid : ℕ) (e : ServiceEntry)
      → find_service (platform dev random_word s g) sid ≡ some e
      → e.handler ≡ write_data_by_id
      → sid ≡ 0x2E
  found-write s g sid e found h = ground arith

  read-did :
      (did : ℕ) (e : DidReadEntry (Board F R))
      → find (λ e. e.did == did) (uds_config dev random_word).read_dids ≡ some e
      → did ≡ 0xF186
  read-did did e h = sym ((==_iff 0xF186 did).0 (find_one (λ e. e.did == did) _ e h).0)

  write-did :
      (did : ℕ) (e : DidWriteEntry (Board F R))
      → find (λ e. e.did == did) (uds_config dev random_word).write_dids ≡ some e
      → (did ≡ 0xF180)
        × ((bytes : List ℕ) (g : Globals (Board F R))
            → write_key_masks dev random_word held bytes g ≡ e.func bytes g)
  write-did did e h =
      let (same_did, same) = find_one (λ e. e.did == did) _ e h in
      (sym ((==_iff 0xF180 did).0 same_did), λ bytes g. ap (λ e. DidWriteEntry.func e bytes g) same)

  DidPanics-Reborrows :
      (s : UdsState) (g : Globals (Board F R)) (req : List ℕ) (e : ServiceEntry)
      (h : ServiceHandler)
      → find_service (platform dev random_word s g) (get_or req 0 0) ≡ some e
      → e.handler ≡ h
      → DidPanics (uds_config dev random_word) g req h
      → Reborrows req
  DidPanics-Reborrows s g req e _ found same (reading d size at panic) =
      inl (found-read s g (get_or req 0 0) e found same, size, read-did _ d at)
  DidPanics-Reborrows s g req e _ found same (writing d at panic) =
      let (did, called) = write-did _ d at in
      inr (
        found-write s g (get_or req 0 0) e found same,
        write_key_masks-none (drop 3 req) g (called (drop 3 req) g ∙ panic),
        did,
      )

  -- On the platform's own tables, in whatever state the engine is: a request of at most 64 bytes is
  -- processed without a panic, reads past its end included, or it reads the active session (0x22,
  -- 0xF186) or writes three key masks (0x2E, 0xF180), whose callbacks borrow what the dispatcher
  -- holds.
  pub dispatch_sid-returns :
      (crates : Crates) (s : UdsState) (g : Globals (Board F R)) (req : List ℕ) (now_ms : ℕ)
      → length req ≤ 64
      → ((m : Machine (Board F R)) × (dispatch_sid crates (platform dev random_word s g) req now_ms
            ≡ some m))
        ⊎ Reborrows req
  dispatch_sid-returns crates s g req now_ms fits =
      let m = platform dev random_word s g in
      elim (Option-cases (dispatch_sid crates m req now_ms)) [
        | inr returned ↦ inl returned
        | inl panic ↦
            let (e, found, panics) =
              dispatch_sid-panics crates m req now_ms uds_config-PlatformReturns fits panic in
            inr (DidPanics-Reborrows s g req e e.handler found refl panics)
      ]
