-- ===== src/Uds/Totality.antt =====
-- uds-core/src/table.rs: what panics a request can meet, reads past its end included.
use rust_foc.Uds.State.{UdsState, Globals, AesBlock}
use rust_foc.Uds.Dtc.{handle_clear, handle_read}
use rust_foc.Uds.Services.{dispatch_0x11, dispatch_0x28, dispatch_0x3e}
use rust_foc.Uds.Dispatch.{
  settled?, beside, stamp, keep_request, find_service, serve, dispatch_sid, route,
}
use rust_foc.Uds.Security.{
  generate_key, fallback_seed, parse_sa_subfunc, sa_send_key, sa_request_seed, dispatch_0x27,
  generate_seed, expected_key,
}
use rust_foc.Uds.Services.{
  session_hook, routine_table, run_hook, routine_entry, read_entry, enter_session, write_entry,
  dispatch_0x22, dispatch_0x2e, dispatch_0x10, dispatch_0x31,
}
use rust_foc.Uds.Config.{
  ecu_reset, comm_control, tester_present, clear_dtc, read_dtc, request_download, transfer_data,
  transfer_exit, ServiceEntry, RoutineEntry, DidWriteEntry, ServiceHandler, RoutineSub, Machine,
  DidReadEntry, Crates, UdsConfig, session, read_data_by_id, write_data_by_id, security_access,
  routine_start, routine_stop, routine_result, start, stop, result, ok, err,
}
use rust_foc.Uds.Types.{SrvState-cases, Session, session_from_u8}
use rust_foc.Uds.Types.{default, programming, extended}
use rust_foc.Common.{
  refl, All-find, All, ◌-◌, drop, replicate, low_bits, ◌==◌, ◌≤◌, get_or, length, Option-cases,
  be16, ◌≡◌, ◌≢◌, find, Option, List, ℕ, none, some, [], ◌∷◌, arith, inl, inr, true, false,
}

module _ {W : Type 0} where
  abbrev HookReturns : Option (Globals W → Option (Globals W)) → Type 0
  HookReturns none = Unit
  HookReturns (some f) = (g : Globals W) → f g ≢ none

  abbrev SeedReturns : Option (Globals W → Option (AesBlock × Globals W)) → Type 0
  SeedReturns none = Unit
  SeedReturns (some f) = (g : Globals W) → f g ≢ none

  abbrev KeyReturns :
      Option (AesBlock → AesBlock → Globals W → Option (AesBlock × Globals W)) → Type 0
  KeyReturns none = Unit
  KeyReturns (some f) = (seed material : AesBlock) (g : Globals W) → f seed material g ≢ none

  abbrev RoutinesReturn : List (RoutineEntry W) → Type 0
  RoutinesReturn =
      All (λ e.
        (bytes : List ℕ) (g : Globals W) → RoutineEntry.func e bytes (replicate 60 0) g ≢ none)

  -- No callback of the platform panics but those of the identifiers.
  pub record PlatformReturns (c : UdsConfig W) : Type 0 where
    pub routine_start : RoutinesReturn c.routines_start
    pub routine_stop : RoutinesReturn c.routines_stop
    pub routine_result : RoutinesReturn c.routines_result
    pub hook_default : HookReturns c.on_default_session_enter
    pub hook_programming : HookReturns c.on_programming_session_enter
    pub hook_extended : HookReturns c.on_extended_session_enter
    pub seed : SeedReturns c.seed_fn
    pub key : KeyReturns c.key_fn

  routine_table-returns :
      (c : UdsConfig W) (sub : RoutineSub)
      → PlatformReturns c
      → RoutinesReturn (routine_table c sub)
  routine_table-returns c start p = p.routine_start
  routine_table-returns c stop p = p.routine_stop
  routine_table-returns c result p = p.routine_result

  session_hook-returns :
      (c : UdsConfig W) (s : Session) → PlatformReturns c → HookReturns (session_hook c s)
  session_hook-returns c default p = p.hook_default
  session_hook-returns c programming p = p.hook_programming
  session_hook-returns c extended p = p.hook_extended

  run_hook-returns :
      (f : Option (Globals W → Option (Globals W))) (g : Globals W)
      → HookReturns f
      → run_hook f g ≢ none
  run_hook-returns none g h e = cc
  run_hook-returns (some f) g h e = h g e

  dispatch_0x10-returns :
      (c : UdsConfig W) (s : UdsState) (g : Globals W) (req : List ℕ)
      → PlatformReturns c
      → dispatch_0x10 c s g req ≢ none
  unfolding dispatch_0x10 enter_session
  dispatch_0x10-returns c s g req p e =
      elim (Option-cases (session_from_u8 (low_bits (get_or req 1 0) 7))) [
        | inl bad ↦ absurd (ground arith)
        | inr (new_session, good) ↦
            run_hook-returns (session_hook c new_session) g (session_hook-returns c new_session p)
              (ground arith)
      ]

  -- The callback of an identifier that a request reads or writes panics.
  pub data DidPanics (c : UdsConfig W) (g : Globals W) (req : List ℕ)
      : ServiceHandler → Type 0 where
    reading :
        (e : DidReadEntry W)
        → length req ≡ 3
        → find (λ e. e.did == be16 (get_or req 1 0) (get_or req 2 0)) c.read_dids ≡ some e
        → e.func (replicate 64 0) g ≡ none
        → DidPanics c g req read_data_by_id
    writing :
        (e : DidWriteEntry W)
        → find (λ e. e.did == be16 (get_or req 1 0) (get_or req 2 0)) c.write_dids ≡ some e
        → e.func (drop 3 req) g ≡ none
        → DidPanics c g req write_data_by_id

  dispatch_0x22-panics :
      (c : UdsConfig W) (s : UdsState) (g : Globals W) (req : List ℕ)
      → dispatch_0x22 c s g req ≡ none
      → DidPanics c g req read_data_by_id
  unfolding dispatch_0x22 read_entry
  dispatch_0x22-panics c s g req h =
      let did = be16 (get_or req 1 0) (get_or req 2 0) in
      elim (Option-cases (find (λ e. e.did == did) c.read_dids)) [
        | inl missing ↦ absurd (ground arith)
        | inr (e, found) ↦ elim (Option-cases (e.func (replicate 64 0) g)) [
          | inl panic ↦ reading e (ground arith) found panic
          | inr ((ok n, payload, g'), done) ↦ absurd (ground arith)
          | inr ((err nrc, payload, g'), done) ↦ absurd (ground arith)
        ]
      ]

  dispatch_0x2e-panics :
      (c : UdsConfig W) (s : UdsState) (g : Globals W) (req : List ℕ)
      → dispatch_0x2e c s g req ≡ none
      → DidPanics c g req write_data_by_id
  unfolding dispatch_0x2e write_entry
  dispatch_0x2e-panics c s g req h =
      let did = be16 (get_or req 1 0) (get_or req 2 0) in
      elim (Option-cases (find (λ e. e.did == did) c.write_dids)) [
        | inl missing ↦ absurd (ground arith)
        | inr (e, found) ↦ elim (Option-cases (e.func (drop 3 req) g)) [
          | inl panic ↦ writing e found panic
          | inr ((ok n, g'), done) ↦ absurd (ground arith)
          | inr ((err nrc, g'), done) ↦ absurd (ground arith)
        ]
      ]

  dispatch_0x31-returns :
      (c : UdsConfig W) (s : UdsState) (g : Globals W) (req : List ℕ) (sub : RoutineSub)
      → PlatformReturns c
      → dispatch_0x31 c s g req sub ≢ none
  unfolding dispatch_0x31 routine_entry
  dispatch_0x31-returns c s g req sub p h =
      let rid = be16 (get_or req 2 0) (get_or req 3 0) in
      elim (Option-cases (find (λ e. e.rid == rid) (routine_table c sub))) [
        | inl missing ↦ absurd (ground arith)
        | inr (e, found) ↦ elim (Option-cases (e.func (drop 4 req) (replicate 60 0) g)) [
          | inl panic ↦
              All-find _ (λ e. e.rid == rid) (routine_table c sub) (routine_table-returns c sub p)
                found (drop 4 req) g panic
          | inr ((ok n, buf, g'), done) ↦ absurd (ground arith)
          | inr ((err nrc, buf, g'), done) ↦ absurd (ground arith)
        ]
      ]

  generate_seed-returns :
      (c : UdsConfig W) (g : Globals W) → SeedReturns c.seed_fn → generate_seed c g ≢ none
  unfolding generate_seed
  generate_seed-returns c g = by_option c.seed_fn
    where
      by_option :
          (f : Option (Globals W → Option (AesBlock × Globals W)))
          → SeedReturns f
          → elim f [ none ↦ some (fallback_seed g) | some f ↦ f g ] ≢ none
      by_option none h e = cc
      by_option (some f) h e = h g e

  expected_key-returns :
      (crates : Crates) (c : UdsConfig W) (s : UdsState) (g : Globals W) (sal : ℕ)
      → KeyReturns c.key_fn
      → expected_key crates c s g sal ≢ none
  unfolding expected_key
  expected_key-returns crates c s g sal = by_option c.key_fn
    where
      by_option :
          (f : Option (AesBlock → AesBlock → Globals W → Option (AesBlock × Globals W)))
          → KeyReturns f
          → let material = get_or g.key_masks (sal - 1) [] in
            ◌≢◌ {A = Option (AesBlock × Globals W)}
              (elim f [
                | some f ↦ f s.current_seed material g
                | none ↦ some (generate_key crates s.current_seed material, g)
              ])
              none
      by_option none h e = cc
      by_option (some f) h e = h s.current_seed (get_or g.key_masks (sal - 1) []) g e

  dispatch_0x27-returns :
      (crates : Crates) (c : UdsConfig W) (s : UdsState) (g : Globals W) (req : List ℕ)
      → PlatformReturns c
      → dispatch_0x27 crates c s g req ≢ none
  unfolding dispatch_0x27 sa_request_seed sa_send_key
  dispatch_0x27-returns crates c s g req p h =
      elim (Option-cases (parse_sa_subfunc (get_or req 1 0))) [
        | inl bad ↦ absurd (ground arith)
        | inr ((sal, true), sub) ↦ elim (Option-cases (generate_seed c g)) [
          | inl panic ↦ generate_seed-returns c g p.seed panic
          | inr (seed, e) ↦ absurd (ground arith)
        ]
        | inr ((sal, false), sub) ↦ elim (Option-cases (expected_key crates c s g sal)) [
          | inl panic ↦ expected_key-returns crates c s g sal p.key panic
          | inr (key, e) ↦ absurd (ground arith)
        ]
      ]

  dispatch_0x11-returns :
      (s : UdsState) (g : Globals W) (req : List ℕ) → dispatch_0x11 s g req ≢ none
  unfolding dispatch_0x11
  dispatch_0x11-returns s g req h = absurd (ground arith)

  dispatch_0x28-returns :
      (s : UdsState) (g : Globals W) (req : List ℕ) → dispatch_0x28 s g req ≢ none
  unfolding dispatch_0x28
  dispatch_0x28-returns s g req h = absurd (ground arith)

  dispatch_0x3e-returns :
      (s : UdsState) (g : Globals W) (req : List ℕ) → dispatch_0x3e s g req ≢ none
  unfolding dispatch_0x3e
  dispatch_0x3e-returns s g req h = absurd (ground arith)

  handle_clear-returns : (g : Globals W) (req : List ℕ) → handle_clear g req ≢ none
  unfolding handle_clear
  handle_clear-returns g req h = absurd (ground arith)

  handle_read-returns : (g : Globals W) (req : List ℕ) → handle_read g req ≢ none
  unfolding handle_read
  handle_read-returns g req h = absurd (ground arith)

  settled?-none :
      (m : Machine W) (o : Option (UdsState × Globals W)) → settled? m o ≡ none → o ≡ none
  settled?-none m none h = refl
  settled?-none m (some r) h = absurd (ground arith)

  beside-none : (s : UdsState) (o : Option (Globals W)) → beside s o ≡ none → o ≡ none
  beside-none s none h = refl
  beside-none s (some g) h = absurd (ground arith)

  route-panics :
      (crates : Crates) (m : Machine W) (req : List ℕ) (handler : ServiceHandler)
      → PlatformReturns m.config
      → route crates m req handler ≡ none
      → DidPanics m.config m.globals req handler
  unfolding route
  route-panics crates m req session p h =
      absurd (dispatch_0x10-returns m.config m.state m.globals req p (settled?-none m _ h))
  route-panics crates m req read_data_by_id p h =
      dispatch_0x22-panics m.config m.state m.globals req (settled?-none m _ h)
  route-panics crates m req write_data_by_id p h =
      dispatch_0x2e-panics m.config m.state m.globals req (settled?-none m _ h)
  route-panics crates m req security_access p h =
      absurd (dispatch_0x27-returns crates m.config m.state m.globals req p (settled?-none m _ h))
  route-panics crates m req routine_start p h =
      absurd (dispatch_0x31-returns m.config m.state m.globals req start p (settled?-none m _ h))
  route-panics crates m req routine_stop p h =
      absurd (dispatch_0x31-returns m.config m.state m.globals req stop p (settled?-none m _ h))
  route-panics crates m req routine_result p h =
      absurd (dispatch_0x31-returns m.config m.state m.globals req result p (settled?-none m _ h))
  route-panics crates m req ecu_reset p h =
      absurd (dispatch_0x11-returns m.state m.globals req (settled?-none m _ h))
  route-panics crates m req comm_control p h =
      absurd (dispatch_0x28-returns m.state m.globals req (settled?-none m _ h))
  route-panics crates m req tester_present p h =
      absurd (dispatch_0x3e-returns m.state m.globals req (settled?-none m _ h))
  route-panics crates m req clear_dtc p h =
      absurd (handle_clear-returns m.globals req (beside-none m.state _ (settled?-none m _ h)))
  route-panics crates m req read_dtc p h =
      absurd (handle_read-returns m.globals req (beside-none m.state _ (settled?-none m _ h)))
  route-panics crates m req request_download p h = absurd (ground arith)
  route-panics crates m req transfer_data p h = absurd (ground arith)
  route-panics crates m req transfer_exit p h = absurd (ground arith)

  serve-panics :
      (crates : Crates) (m : Machine W) (req : List ℕ) (e : ServiceEntry)
      → PlatformReturns m.config
      → length req ≤ 64
      → serve crates m req e ≡ none
      → DidPanics m.config m.globals req e.handler
  unfolding serve
  serve-panics crates m req e p fits h =
      route-panics crates (keep_request m req) req e.handler p (ground arith)

  -- A request of at most 64 bytes panics only in the callback of an identifier.
  pub dispatch_sid-panics :
      (crates : Crates) (m : Machine W) (request : List ℕ) (now_ms : ℕ)
      → PlatformReturns m.config
      → length request ≤ 64
      → dispatch_sid crates m request now_ms ≡ none
      → (e : ServiceEntry) × (find_service m (get_or request 0 0) ≡ some e)
        × DidPanics m.config m.globals request e.handler
  unfolding dispatch_sid
  dispatch_sid-panics crates m [] now_ms p fits h = absurd (ground arith)
  dispatch_sid-panics crates m (sid ∷ rest) now_ms p fits h = elim (SrvState-cases m.state.state) [
    | inr busy ↦ absurd (ground arith)
    | inl i ↦ elim (Option-cases (find_service m sid)) [
      | inl missing ↦ absurd (ground arith)
      | inr (e, found) ↦
          (e, found, serve-panics crates (stamp m now_ms) (sid ∷ rest) e p fits (ground arith))
    ]
  ]
