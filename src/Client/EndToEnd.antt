-- ===== src/Client/EndToEnd.antt =====
-- FlashManager over CANSender against the server of an ECU: the whole programming sequence.
use virtual_automotive_ota_d.Prelude.{
  ℕ, zero, suc, ◌+◌, ◌-◌, ◌%◌, ◌^◌, ◌≤◌, ◌<◌, ◌≡◌, refl, sym, ap, ◌∙◌, Bool, true, false, List, [],
  ◌∷◌, ◌++◌, length, take, drop, Bytes, ok, arith, be32, min, leb, ◌==◌, append_assoc, append-nil,
  length-take, length-drop, length-append, take-append-drop, lt→ltb, contains,
}
use virtual_automotive_ota_d.Programmer.State.{Programmer, Event, response, install}
use virtual_automotive_ota_d.Uds.Codec.{
  build_diagnostic_session_control, build_tester_present, build_security_access_request_seed,
  build_security_access_send_key, build_routine_control_start, build_request_download,
  build_transfer_data, build_request_transfer_exit, build_ecu_reset,
}
use virtual_automotive_ota_d.Client.Exec.{Exec, pure, ◌>>=◌}
use virtual_automotive_ota_d.Client.FlashManager.{
  Transport, enter_programming, transfer_blocks, transfer_data, transfer_exit, program_firmware,
  flash_firmware,
}
use virtual_automotive_ota_d.Client.CanSender.{
  Link, request, confirm, request_seed, send_key, erase_memory, can_sender,
  expect_positive_response,
}
use virtual_automotive_ota_d.Client.Vehicle.{Bench, Vehicle, responses, exchange}
use virtual_automotive_ota_d.Client.Vehicle.Exchanges.{
  IsLossless, services, handled, after, exchange_lem,
}
use virtual_automotive_ota_d.Programmer.Feed.Taken.{IsIdle}
use virtual_automotive_ota_d.Client.Bench.{
  Answers, Enabled, InSession, Continues, Downloading, Verified, enter_lem, present_lem, seed_lem,
  key_lem, erase_lem, download_lem, block_lem, exit_lem, verify_lem, activate_lem, reset_lem,
  next_seed,
}

-- What the environment grants while the server `p` is programmed with `image`: diagnostics and
-- programming are enabled, no two requests are more than the session timeout apart, the server is not
-- locked out, the original is `image`, both sides derive the same keys, of 4093 bytes or less, and the way
-- to the ECU loses nothing.
pub record IsCooperative (p : Programmer) (image : Bytes) (derive : Bytes → Bytes) (v : Vehicle)
    : Type 0 where
  pub enabled : (n : ℕ) → Enabled (v.envs n)
  pub prompt : (n : ℕ) → (v.envs (n + 1)).expiry_clock - (v.envs n).touch_clock ≤ 120000
  pub not_delayed : (n : ℕ) → p.security_locked_until ≤ (v.envs n).security_clock
  pub opens : (n : ℕ) → (v.envs n).original ≡ ok image
  pub derives : (n : ℕ) (seed : Bytes) → (v.envs n).derive_key seed ≡ ok (derive seed)
  pub short_keys : (seed : Bytes) → length (derive seed) ≤ 4093
  pub lossless : IsLossless v p.ecu_id

-- The last thing that was done is to start the install thread.
abbrev pub EndsInInstall : List Event → Type 0
EndsInInstall es = (before : List Event) × (es ≡ before ++ (install ∷ []))

-- The method returns `a`, in a world of which `Q` holds.
abbrev pub Ends : {A : Type 0} → Exec Bench A → Bench → A → (Bench → Type 0) → Type 0
Ends m w a Q = (w' : Bench) × (m w ≡ (ok a, w')) × Q w'

Ends-bind :
    {A B : Type 0} (m : Exec Bench A) (f : A → Exec Bench B) (w : Bench) (a : A) (b : B)
    (Q R : Bench → Type 0)
    → Ends m w a Q
    → ((w' : Bench) → Q w' → Ends (f a) w' b R)
    → Ends (m >>= f) w b R
Ends-bind m f w a b Q R (w', e, q) h = let (w'', e', r) = h w' q in (w'', rw e e', r)

request-returned :
    (l : Link Bench) (sid : ℕ) (payload : Bytes) (w : Bench) (rs : List Bytes) (r : Bytes)
    (w' : Bench)
    → l.exchange payload w ≡ (ok rs, w')
    → expect_positive_response l.rounds sid rs ≡ ok r
    → request l sid payload w ≡ (ok r, w')
unfolding request
request-returned l sid payload w rs r w' e answer = rw (e, answer)

module _ (v : Vehicle) (k : ℕ) (derive : Bytes → Bytes) (chunk : ℕ) where
  -- Two rounds or more before the deadline, and a boot that is always confirmed.
  abbrev pub bench_link : Link Bench
  bench_link = record {
    exchange = exchange v;
    rounds = suc (suc k);
    derive_security_key = λ seed. ok (derive seed);
    max_transfer_payload = chunk;
    wait_for_boot = pure true;
    same_version = pure true;
  }

  module _ (p : Programmer) (image : Bytes) (co : IsCooperative p image derive v) where
    -- The ECU keeps its identifier, and its reassembler is as a new one for the next request.
    record Ready (w : Bench) : Type 0 where
      idle : IsIdle w.reassembler
      named : w.server.ecu_id ≡ p.ecu_id

    abbrev Paused : Bench → Type 0
    Paused w = InSession (v.envs w.requests) w.server × Ready w

    abbrev Unlocked : Bench → Type 0
    Unlocked w = Paused w × (w.server.security_unlocked ≡ true)

    -- A request of the programming sequence that IsoTpAdapter can send
    abbrev Fits : ℕ → Bytes → Type 0
    Fits sid rest = (contains services sid ≡ true) × (length (sid ∷ rest) ≤ 0xFFF)

    module _ (sid : ℕ) (rest r : Bytes) (w : Bench) (ready : Ready w) (fits : Fits sid rest)
        (a : Answers k sid (handled v w (sid ∷ rest)) r) where
      exchanged :
          (exchange v (sid ∷ rest) w
            ≡ (ok (responses (handled v w (sid ∷ rest)).events), after v (sid ∷ rest) w))
          × IsIdle (after v (sid ∷ rest) w).reassembler
      exchanged =
          exchange_lem v w sid rest (rw ready.named co.lossless) ready.idle fits.0 fits.1 a.short
            a.ends

      request-Answers : request bench_link sid (sid ∷ rest) w ≡ (ok r, after v (sid ∷ rest) w)
      request-Answers =
          request-returned bench_link sid (sid ∷ rest) w _ r (after v (sid ∷ rest) w) exchanged.0
            a.answer

      confirm-Answers :
          confirm bench_link sid (ok (sid ∷ rest)) w ≡ (ok true, after v (sid ∷ rest) w)
      confirm-Answers = unfold confirm in rw request-Answers

      paused :
          Continues (v.envs w.requests) w.server (handled v w (sid ∷ rest))
          → Paused (after v (sid ∷ rest) w)
      paused c = (
        record { session = c.session; recent = rw c.touched (co.prompt w.requests) },
        record { idle = exchanged.1; named = c.named ∙ ready.named },
      )

    abbrev KeepsLock : Bench → Type 0
    KeepsLock w = w.server.security_locked_until ≡ p.security_locked_until

    abbrev t : Transport Bench
    t = can_sender bench_link

    session_step :
        (w : Bench)
        → Ready w
        → KeepsLock w
        → Ends t.diagnostic_session_control w true (λ w'. Paused w' × KeepsLock w')
    unfolding build_diagnostic_session_control
    session_step w ready l =
        let (a, c, l') = enter_lem k (v.envs w.requests) w.server (co.enabled w.requests) in
        let fits : Fits 0x10 (0x02 ∷ []) = (refl, omega arith) in
        (
          _,
          confirm-Answers 0x10 (0x02 ∷ []) _ w ready fits a,
          (paused 0x10 (0x02 ∷ []) _ w ready fits a c, l' ∙ l),
        )

    present_step :
        (w : Bench)
        → Paused w
        → KeepsLock w
        → Ends t.tester_present w true (λ w'. Paused w' × KeepsLock w')
    unfolding build_tester_present
    present_step w s l =
        let (a, c, l') = present_lem k (v.envs w.requests) w.server (co.enabled w.requests) s.0 in
        let fits : Fits 0x3E (0x00 ∷ []) = (refl, omega arith) in
        (
          _,
          confirm-Answers 0x3E (0x00 ∷ []) _ w s.1 fits a,
          (paused 0x3E (0x00 ∷ []) _ w s.1 fits a c, l' ∙ l),
        )

    seed_step :
        (w : Bench) (s : Paused w)
        → KeepsLock w
        → (seed : Bytes) × (0 < length seed)
          × (Ends t.request_seed w seed (λ w'. Paused w' × (w'.server.pending_seed ≡ seed)))
    unfolding request_seed build_security_access_request_seed
    seed_step w s l =
        let delay : w.server.security_locked_until ≤ (v.envs w.requests).security_clock =
          rw l (co.not_delayed w.requests) in
        let (a, c, seeded) =
          seed_lem k (v.envs w.requests) w.server (co.enabled w.requests) s.0 delay in
        let fits : Fits 0x27 (0x01 ∷ []) = (refl, omega arith) in
        (
          next_seed w.server,
          omega arith,
          (
            after v (0x27 ∷ 0x01 ∷ []) w,
            rw (request-Answers 0x27 (0x01 ∷ []) (0x67 ∷ 0x01 ∷ next_seed w.server) w s.1 fits a)
                refl,
            (paused 0x27 (0x01 ∷ []) _ w s.1 fits a c, seeded),
          ),
        )

    key_step :
        (w : Bench) (seed : Bytes)
        → 0 < length seed
        → Paused w
        → w.server.pending_seed ≡ seed
        → Ends (t.send_key seed) w true Unlocked
    unfolding send_key build_security_access_send_key
    key_step w seed h s e =
        let derived : (v.envs w.requests).derive_key w.server.pending_seed ≡ ok (derive seed) =
          rw e (co.derives w.requests seed) in
        let (a, c, u) =
          key_lem k (v.envs w.requests) w.server (co.enabled w.requests) s.0 (derive seed) (rw e h)
            derived in
        let short = co.short_keys seed in
        let fits : Fits 0x27 (0x02 ∷ derive seed) = (refl, omega arith) in
        (
          _,
          confirm-Answers 0x27 (0x02 ∷ derive seed) _ w s.1 fits a,
          (paused 0x27 (0x02 ∷ derive seed) _ w s.1 fits a c, u),
        )

    erase_step :
        (w : Bench) (size : ℕ)
        → size < 2 ^ 32
        → Unlocked w
        → Ends (t.erase_memory size) w true (λ w'. Unlocked w' × (w'.server.erase_completed ≡ true))
    unfolding erase_memory build_routine_control_start
    erase_step w size h (s, u) =
        let bytes = 0x01 ∷ 0xFF ∷ 0x00 ∷ be32 size in
        let fits : Fits 0x31 bytes = (refl, omega arith) in
        let (a, c, u', er) =
          erase_lem k (v.envs w.requests) w.server (co.enabled w.requests) s.0 u size in
        (
          after v (0x31 ∷ bytes) w,
          rw (lt→ltb size (2 ^ 32) h) (confirm-Answers 0x31 bytes _ w s.1 fits a),
          ((paused 0x31 bytes _ w s.1 fits a c, u'), er),
        )

    download_step :
        (w : Bench) (size : ℕ)
        → size < 2 ^ 32
        → Unlocked w
        → w.server.erase_completed ≡ true
        → Ends (t.request_download size) w true (λ w'. Paused w' × Downloading w'.server size [] 1)
    unfolding build_request_download
    download_step w size h (s, u) er =
        let bytes = (0x00 ∷ 0x44 ∷ be32 0) ++ be32 size in
        let fits : Fits 0x34 bytes = (refl, omega arith) in
        let (a, c, d) =
          download_lem k (v.envs w.requests) w.server (co.enabled w.requests) s.0 u size h er in
        (
          after v (0x34 ∷ bytes) w,
          rw (lt→ltb size (2 ^ 32) h) (confirm-Answers 0x34 bytes _ w s.1 fits a),
          (paused 0x34 bytes _ w s.1 fits a c, d),
        )

    block_step :
        (w : Bench) (n : ℕ) (done : Bytes) (seq : ℕ) (block : Bytes)
        → Paused w
        → Downloading w.server n done seq
        → seq < 256
        → 0 < length block
        → length block ≤ 4093
        → length done + length block ≤ n
        → Ends
            (t.transfer_data seq block)
            w
            true
            (λ w'. Paused w' × Downloading w'.server n (done ++ block) ((seq + 1) % 256))
    unfolding build_transfer_data
    block_step w n done seq block s d hs h0 hk hn =
        let (a, c, d') =
          block_lem k (v.envs w.requests) w.server (co.enabled w.requests) s.0 n done seq block d hs
            h0 hn in
        let fits : Fits 0x36 (seq ∷ block) = (refl, omega arith) in
        let small : seq % 256 ≡ seq = omega arith in
        (
          after v (0x36 ∷ seq ∷ block) w,
          rw small (confirm-Answers 0x36 (seq ∷ block) _ w s.1 fits a),
          (paused 0x36 (seq ∷ block) _ w s.1 fits a c, d'),
        )

    abbrev Received : ℕ → Bytes → Bench → Type 0
    Received n bytes w = Paused w × ((last : ℕ) × Downloading w.server n bytes last)

    -- The blocks that are left, from a world in which `done` has come.
    blocks_step :
        (fuel n : ℕ) (w : Bench) (seq : ℕ) (done rest : Bytes)
        → length rest ≤ fuel
        → 0 < chunk
        → chunk ≤ 4093
        → seq < 256
        → n ≡ length done + length rest
        → Paused w
        → Downloading w.server n done seq
        → Ends (transfer_blocks t fuel seq rest) w tt (Received n (done ++ rest))
    unfolding transfer_blocks
    blocks_step fuel n w seq done [] hf hc hk hs e s d =
        (w, refl, (s, (seq, rw (append-nil done) d)))
    blocks_step zero n w seq done (b ∷ bs) hf hc hk hs e s d = absurd (omega arith)
    blocks_step (suc fuel) n w seq done (b ∷ bs) hf hc hk hs e s d =
        let block = take chunk (b ∷ bs) in
        let left = drop chunk (b ∷ bs) in
        let taken : length block ≡ min chunk (length (b ∷ bs)) = length-take chunk (b ∷ bs) in
        let kept : length left ≡ length (b ∷ bs) - chunk = length-drop chunk (b ∷ bs) in
        let whole : (done ++ block) ++ left ≡ done ++ (b ∷ bs) =
          append_assoc done block left ∙ ap (λ x. done ++ x) (take-append-drop chunk (b ∷ bs)) in
        let grown : length (done ++ block) ≡ length done + length block =
          length-append done block in
        let next = (seq + 1) % 256 in
        let sent : Ends (t.transfer_data seq block) w true
            (λ w'. Paused w' × Downloading w'.server n (done ++ block) next) =
          block_step w n done seq block s d hs (omega arith) (omega arith) (omega arith) in
        let rest_sent : (w' : Bench)
            → Paused w' × Downloading w'.server n (done ++ block) next
            → Ends (transfer_blocks t fuel next left) w' tt (Received n ((done ++ block) ++ left)) =
          λ w' (s', d').
            blocks_step fuel n w' next (done ++ block) left (omega arith) hc hk (omega arith)
              (omega arith) s' d' in
        Ends-bind (t.transfer_data seq block) (λ _. transfer_blocks t fuel next left) w true tt
          (λ w'. Paused w' × Downloading w'.server n (done ++ block) next)
          (Received n (done ++ (b ∷ bs))) sent (λ w' q. rw (sym whole) (rest_sent w' q))

    exit_step :
        (w : Bench) (seq : ℕ)
        → Paused w
        → Downloading w.server (length image) image seq
        → Ends t.request_transfer_exit w true
            (λ w'. Paused w' × ((marked : Bool) × Verified w'.server image marked))
    unfolding build_request_transfer_exit
    exit_step w seq s d =
        let (a, c, h) =
          exit_lem k (v.envs w.requests) w.server (co.enabled w.requests) s.0 image seq d
            (co.opens w.requests) in
        let fits : Fits 0x37 [] = (refl, omega arith) in
        (
          after v (0x37 ∷ []) w,
          confirm-Answers 0x37 [] (0x77 ∷ []) w s.1 fits a,
          (paused 0x37 [] _ w s.1 fits a c, (w.server.activation_marked, h)),
        )

    verify_step :
        (w : Bench) (marked : Bool)
        → Paused w
        → Verified w.server image marked
        → Ends t.verify_programming w true (λ w'. Paused w' × Verified w'.server image marked)
    unfolding build_routine_control_start
    verify_step w marked s h =
        let (a, c, v') =
          verify_lem k (v.envs w.requests) w.server (co.enabled w.requests) s.0 image marked h in
        let fits : Fits 0x31 (0x01 ∷ 0xFF ∷ 0x01 ∷ []) = (refl, omega arith) in
        (
          after v (0x31 ∷ 0x01 ∷ 0xFF ∷ 0x01 ∷ []) w,
          confirm-Answers 0x31 (0x01 ∷ 0xFF ∷ 0x01 ∷ []) _ w s.1 fits a,
          (paused 0x31 (0x01 ∷ 0xFF ∷ 0x01 ∷ []) _ w s.1 fits a c, v'),
        )

    activate_step :
        (w : Bench) (marked : Bool)
        → Paused w
        → Verified w.server image marked
        → Ends t.activate_image w true (λ w'. Paused w' × Verified w'.server image true)
    unfolding build_routine_control_start
    activate_step w marked s h =
        let (a, c, v') =
          activate_lem k (v.envs w.requests) w.server (co.enabled w.requests) s.0 image marked h in
        let fits : Fits 0x31 (0x01 ∷ 0xFF ∷ 0x02 ∷ []) = (refl, omega arith) in
        (
          after v (0x31 ∷ 0x01 ∷ 0xFF ∷ 0x02 ∷ []) w,
          confirm-Answers 0x31 (0x01 ∷ 0xFF ∷ 0x02 ∷ []) _ w s.1 fits a,
          (paused 0x31 (0x01 ∷ 0xFF ∷ 0x02 ∷ []) _ w s.1 fits a c, v'),
        )

    reset_step :
        (w : Bench)
        → Paused w
        → Verified w.server image true
        → Ends t.ecu_reset w true
            (λ w'. (w'.server.receiver.buffer ≡ image) × EndsInInstall w'.events)
    unfolding build_ecu_reset
    reset_step w s h =
        let (a, es, b) =
          reset_lem k (v.envs w.requests) w.server (co.enabled w.requests) s.0 image h in
        let fits : Fits 0x11 (0x01 ∷ []) = (refl, omega arith) in
        (
          after v (0x11 ∷ 0x01 ∷ []) w,
          confirm-Answers 0x11 (0x01 ∷ []) _ w s.1 fits a,
          (
            b,
            (
              w.events ++ response (0x51 ∷ 0x01 ∷ []) ∷ [],
              rw es (sym (append_assoc w.events (response (0x51 ∷ 0x01 ∷ []) ∷ []) (install ∷ []))),
            ),
          ),
        )

    enter_step : (w : Bench) → Ready w → KeepsLock w → Ends (enter_programming t) w true Unlocked
    unfolding enter_programming
    enter_step w ready l =
        let (w1, e1, (s1, l1)) = session_step w ready l in
        let (w2, e2, (s2, l2)) = present_step w1 s1 l1 in
        let (seed, h, (w3, e3, (s3, q))) = seed_step w2 s2 l2 in
        let (w4, e4, u) = key_step w3 seed h s3 q in
        let nonempty : leb (length seed) 0 ≡ false = ground arith in
        (w4, rw (e1, e2, e3, nonempty, e4), u)

    transfer_step :
        (w : Bench)
        → 0 < chunk
        → chunk ≤ 4093
        → Paused w
        → Downloading w.server (length image) [] 1
        → Ends (transfer_data t image) w true (Received (length image) image)
    unfolding transfer_data
    transfer_step w hc hk s d =
        let (w', e, q) =
          blocks_step (length image) (length image) w 1 [] image (omega arith) hc hk (omega arith)
            (omega arith) s d in
        let some_chunk : (chunk == 0) ≡ false = ground arith in (w', rw (some_chunk, e), q)

    leave_step :
        (w : Bench)
        → Received (length image) image w
        → Ends (transfer_exit t) w true (λ w'. Paused w' × Verified w'.server image true)
    unfolding transfer_exit
    leave_step w (s, (seq, d)) =
        let (w1, e1, (s1, (marked, v1))) = exit_step w seq s d in
        let (w2, e2, (s2, v2)) = verify_step w1 marked s1 v1 in
        let (w3, e3, q) = activate_step w2 marked s2 v2 in (w3, rw (e1, e2, e3), q)

    program_step :
        (w : Bench)
        → Ready w
        → KeepsLock w
        → length image < 2 ^ 32
        → 0 < chunk
        → chunk ≤ 4093
        → Ends
            (flash_firmware t image)
            w
            true
            (λ w'. (w'.server.receiver.buffer ≡ image) × EndsInInstall w'.events)
    unfolding flash_firmware program_firmware
    program_step w ready l h hc hk =
        let (w1, e1, u1) = enter_step w ready l in
        let (w2, e2, (u2, er)) = erase_step w1 (length image) h u1 in
        let (w3, e3, (s3, d)) = download_step w2 (length image) h u2 er in
        let (w4, e4, q4) = transfer_step w3 hc hk s3 d in
        let (w5, e5, (s5, v)) = leave_step w4 q4 in
        let (w6, e6, q6) = reset_step w5 s5 v in (w6, rw (e1, e2, e3, e4, e5, e6), q6)

  -- The whole sequence, from FlashManager through CANSender, the zone controller and ISO-TP over CAN to
  -- the ECU and back, where the link has two rounds or more before each deadline and the boot is
  -- confirmed. From any state of the server with a reassembler that asks for no pauses and has no flow
  -- control waiting, and whatever was done before: if diagnostics and programming are enabled, no two
  -- requests are more than the session timeout apart, the server is not locked out, the original is the
  -- image, both sides derive the same keys, of 4093 bytes or less, the zone admits the requests and the
  -- other traffic on the bus neither hides nor imitates the ECU's frames, then flashing an image shorter
  -- than 4 GiB in chunks of 1 to 4093 bytes returns true, the server then stores that very image, and
  -- the last thing that it did is to start the installation.
  pub flash_firmware-installs :
      (w : Bench) (image : Bytes)
      → IsCooperative w.server image derive v
      → IsIdle w.reassembler
      → length image < 2 ^ 32
      → 0 < chunk
      → chunk ≤ 4093
      → Ends
          (flash_firmware (can_sender bench_link) image)
          w
          true
          (λ w'. (w'.server.receiver.buffer ≡ image) × EndsInInstall w'.events)
  flash_firmware-installs w image co idle h hc hk =
      program_step w.server image co w (record { idle = idle; named = refl }) refl h hc hk
