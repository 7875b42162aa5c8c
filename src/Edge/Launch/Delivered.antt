-- ===== src/Edge/Launch/Delivered.antt =====
-- core-engine/src/main.cpp from its command line to the receiver of its stream.
use zcmesh.Base.{
  zero, suc, Bool, false, ◌==◌, ℕ, ◌+◌, ◌*◌, ◌^◌, ◌<◌, ◌≡◌, ◌⊎◌, refl, subst, ◌∙◌, ap, arith, true,
  Bool-cases, inl, inr, Option, none, some, List, [], ◌++◌, All, length, take, drop, ◌%◌,
}
use zcmesh.Net.Api.{Endpoint, IsTcp}
use zcmesh.Net.Endpoints.{parse_endpoint}
use zcmesh.Options.{codes}
use zcmesh.Wire.Frame.{Frame}
use zcmesh.Batch.{new_batch, frames_bytes}
use zcmesh.Batch.Contents.{pending}
use zcmesh.Batch.Validity.{new_batch-IsValid}
use zcmesh.Capture.{FileApi, Decoder, decode_tcp_stream}
use zcmesh.Capture.Accounting.{append_all}
use zcmesh.Edge.Start.{start_router}
use zcmesh.Edge.{
  tcp_mode, ReconnectGate, new_gate, try_connect, taped, Link, relink, linked, linked-IsTcp,
}
use zcmesh.Edge.Arguments.{EdgeOptions, edge_defaults, go, parse_edge}
use zcmesh.Edge.Arguments.Accepted.{IsOptions, Accepted, parse_edge-Accepted}
use zcmesh.Edge.Loop.{Options, Reading, Polled, LoopState}
use zcmesh.Edge.Loop.Owed.{try_connect-tape}
use zcmesh.Edge.Loop.Delivery.{IsReading, Numbered}
use zcmesh.Edge.Loop.Sampled.{Carries}
use zcmesh.Edge.Loop.Carried.{reading_at, raws_read}
use zcmesh.Inspect.Reading.{raws_of}
use zcmesh.Edge.Loop.ToCapture.{run-Collected}
use zcmesh.Edge.Launch.Hosts.{taped_host, linked_host}
use zcmesh.Edge.Launch.{
  EdgeHost, Launched, exits, throws, loops, text_or, loop_options, start_state, with_file, with_tcp,
  with_control, with_memory, start_memory, launch, looped, edge_main,
}

abbrev pub no_link : Link
no_link = record { connections = 0; stream = [] }

-- Nothing has been sent yet.
abbrev IsFresh : {W : Type 0} → (W × Link) × List ℕ → Type 0
IsFresh w = (w.1 ≡ []) × (w.0.1.stream ≡ [])

by_drop_pct :
    {P : Type 0} (p : Option ℕ)
    → (0 < (elim p [ none ↦ 0 | some n ↦ n ])) ⊎ P
    → ((n : ℕ) × (p ≡ some (suc n))) ⊎ P
by_drop_pct none (inl lossy) = absurd (omega (arith, lossy))
by_drop_pct (some zero) (inl lossy) = absurd (omega (arith, lossy))
by_drop_pct (some (suc n)) (inl lossy) = inl (n, refl)
by_drop_pct p (inr whole) = inr whole

module _ {W V : Type 0} (host : EdgeHost W) (laws : IsTcp host.api.tcp) (file : FileApi V)
    (polls : (o : Options) → List (Polled (taped (linked (host.api))) o)) (readings : List Reading)
    (d : Decoder V) where
  -- A new connection starts a stream anew.
  relink-fresh : (ok : Bool) (l : Link) → l.stream ≡ [] → (relink ok l).stream ≡ []
  relink-fresh false l e = e
  relink-fresh true l e = elim (Bool-cases (l.connections == 0)) [
    | inl first ↦ rw first e
    | inr again ↦ rw again refl
  ]

  try_connect-fresh :
      (op : Endpoint) (w : (W × Link) × List ℕ)
      → w.0.1.stream ≡ []
      → (try_connect (taped (linked (host.api))) new_gate op w).2.0.1.stream ≡ []
  unfolding try_connect
  try_connect-fresh op w e =
      let r = relink-fresh (host.api.tcp.connect op (host.api.monotonic_ns w.0.0).1).0 w.0.1 e in
      ground (arith, e, r)

  -- How a run with `--transport tcp` ends: with 1, with an exception where the batch has no room in the
  -- arena, or out of its loop, with what TCP has accepted of the frames and what a receiver has of it.
  abbrev pub Delivers : EdgeOptions → Launched (taped_host (linked_host host)) → Type 0
  Delivers o (exits n w) = n ≡ 1
  Delivers o (throws w) = start_memory (host.slab) o.batch_size ≡ none
  Delivers o (loops opts s) =
      (frames : List Frame) × (k : ℕ) × (tail : List ℕ) × (drops : ℕ) × (s.edge.world.1
        ≡ frames_bytes (take k frames) ++ tail)
      × ((1 < s.edge.world.0.1.connections)
          ⊎ (decode_tcp_stream file s.edge.world.0.1.stream d
              ≡ (tail, append_all file (take k frames) d)))
      × (tail ++ pending s.edge.batch ≡ frames_bytes (drop k frames))
      × Numbered o.node_id 0 frames s.seq
      × (s.seq ≡ length frames + drops)
      × (s.dropped_count ≡ drops % 2 ^ 64)
      × All (Carries (reading_at readings 0)) frames
      × (((n : ℕ) × (o.drop_pct ≡ some (suc n)))
          ⊎ (raws_of frames ≡ raws_read (take (length frames) readings)))
      × (parse_endpoint (text_or (codes "127.0.0.1:9900") o.operator_text) ≡ (true, opts.operator))

  module _ (o : EdgeOptions) (v : IsOptions o) (small : o.batch_size * 24 < 2 ^ 64)
      (fit : All (λ r. IsReading r.sensor r.raw) readings) (few : length readings < 2 ^ 32) where
    abbrev tcp_options : EdgeOptions
    tcp_options = record o { transport = tcp_mode }

    abbrev ends :
        Launched (taped_host (linked_host host)) → Launched (taped_host (linked_host host))
    ends l = looped (taped_host (linked_host host)) polls readings l

    abbrev op : Endpoint
    op = (parse_endpoint (text_or (codes "127.0.0.1:9900") o.operator_text)).1

    module _
        (good : (parse_endpoint (text_or (codes "127.0.0.1:9900") o.operator_text)).0 ≡ true) where
      start_state-Delivers :
          (gate : ReconnectGate) (w : (W × Link) × List ℕ)
          → IsFresh w
          → Delivers o (ends (start_state (taped_host (linked_host host)) tcp_options op gate w))
      unfolding new_batch
      start_state-Delivers gate w fresh =
          let opts = loop_options tcp_options op in
          let s0 : LoopState (taped (linked (host.api))) opts = record {
            edge = record {
              batch = new_batch o.batch_size;
              router = (start_router o.node_id op o.hop_override).1;
              gate = gate;
              stats = record { mesh_failover = 0; tcp_partial_abort = 0; mesh_rescue_frames = 0 };
              world = w;
            };
            seq = 0;
            sent_ok = 0;
            sent_fail = 0;
            dropped_count = 0;
          } in
          let c =
            run-Collected (host.api) laws file op o.node_id opts.drop_pct (polls opts) readings s0 d
              (new_batch-IsValid o.batch_size v.batch_pos small) refl fresh.0 fresh.1 v.node_fits
              fit (omega arith) (omega arith) in
          (
            c.0,
            c.1,
            c.2,
            c.3,
            c.4,
            c.5,
            c.6,
            c.7,
            omega (arith, c.8),
            c.9 ∙ omega arith,
            c.10,
            by_drop_pct o.drop_pct c.11,
            ap (λ b. (b, op)) good,
          )

      with_file-Delivers :
          (gate : ReconnectGate) (path : Option (List ℕ)) (w : (W × Link) × List ℕ)
          → IsFresh w
          → Delivers o (ends (with_file (taped_host (linked_host host)) tcp_options op gate path w))
      with_file-Delivers gate none w fresh = start_state-Delivers gate w fresh
      with_file-Delivers gate (some path) w fresh =
          elim (Bool-cases ((linked_host host).open_file path w.0).0) [
            | inr missing ↦ rw missing refl
            | inl opened ↦
                rw opened
                  (start_state-Delivers gate (((linked_host host).open_file path w.0).1, w.1) fresh)
          ]

      with_tcp-Delivers :
          (w : (W × Link) × List ℕ)
          → IsFresh w
          → Delivers o (ends (with_tcp (taped_host (linked_host host)) tcp_options op w))
      with_tcp-Delivers w fresh =
          let (up, gate, w1) = try_connect (taped (linked (host.api))) new_gate op w in
          with_file-Delivers gate o.file w1 (
            try_connect-tape (linked (host.api)) (linked-IsTcp (host.api) laws) new_gate op w
                ∙ fresh.0,
            try_connect-fresh op w fresh.1,
          )

      with_control-Delivers :
          (text : Option (List ℕ)) (w : (W × Link) × List ℕ)
          → IsFresh w
          → Delivers o (ends (with_control (taped_host (linked_host host)) tcp_options op text w))
      with_control-Delivers none w fresh = with_tcp-Delivers w fresh
      with_control-Delivers (some text) w fresh =
          let (opened, w1) = (linked_host host).open_control w.0 in
          let (bound, w2) = (linked_host host).bind_control (parse_endpoint text).1 w1 in
          elim (Bool-cases (parse_endpoint text).0) [
            | inr bad ↦ rw bad refl
            | inl fine ↦ elim (Bool-cases opened) [
              | inr failed ↦ rw (fine, failed) refl
              | inl open_there ↦ elim (Bool-cases bound) [
                | inr taken ↦ rw (fine, open_there, taken) refl
                | inl free ↦ rw (fine, open_there, free) (with_tcp-Delivers (w2, w.1) fresh)
              ]
            ]
          ]

      with_memory-Delivers :
          (blocks : Option (ℕ × ℕ)) (w : (W × Link) × List ℕ)
          → start_memory (host.slab) o.batch_size ≡ blocks
          → IsFresh w
          → Delivers o (ends (with_memory (taped_host (linked_host host)) tcp_options op blocks w))
      with_memory-Delivers none w no_room fresh = no_room
      with_memory-Delivers (some b) w room fresh =
          elim (Bool-cases ((linked_host host).open_udp w.0).0) [
            | inr failed ↦ rw failed refl
            | inl opened ↦
                rw opened
                  (with_control-Delivers o.control (((linked_host host).open_udp w.0).1, w.1) fresh)
          ]

    launch-Delivers :
        (w : W)
        → Delivers o (ends (launch (taped_host (linked_host host)) tcp_options ((w, no_link), [])))
    unfolding launch
    launch-Delivers w =
        let (up, w1) = host.net_init w in
        elim (Bool-cases up) [
          | inr down ↦ rw down refl
          | inl started ↦
              elim (Bool-cases
                (parse_endpoint (text_or (codes "127.0.0.1:9900") o.operator_text)).0) [
                  | inr bad ↦ rw (started, bad) refl
                  | inl good ↦
                      rw (started, good)
                        (with_memory-Delivers good (start_memory (host.slab) o.batch_size)
                          ((w1, no_link), []) refl (refl, refl))
                ]
        ]

  -- Of a command line that asks for TCP and a batch whose bytes stay below 2^64, with the client
  -- laws and fewer than 2^32 readings that fit their types, the edge program ends with 1, or by
  -- an exception where its arena has no room for the batch, or sends the bytes of the first of
  -- its frames and a cut-off tail, and with at most one connection a receiver decodes from its
  -- stream exactly these frames; their numbers rise from 0, they are of the node asked for, each
  -- carries the reading of its number, and without a positive --drop-pct they carry the first
  -- readings in order.
  pub edge_main-Delivers :
      (args : List (List ℕ)) (o : EdgeOptions) (w : W)
      → parse_edge args edge_defaults ≡ go (record o { transport = tcp_mode })
      → o.batch_size * 24 < 2 ^ 64
      → All (λ r. IsReading r.sensor r.raw) readings
      → length readings < 2 ^ 32
      → Delivers o
          (edge_main (taped_host (linked_host host)) polls readings args ((w, no_link), []))
  unfolding edge_main
  edge_main-Delivers args o w parsed small fit few =
      let v : IsOptions (record o { transport = tcp_mode }) =
        subst Accepted parsed (parse_edge-Accepted args) in
      let kept : IsOptions o = record {
        node_fits = v.node_fits;
        batch_pos = v.batch_pos;
        batch_fits = v.batch_fits;
        hops_le = v.hops_le;
      } in
      rw parsed (launch-Delivers o kept small fit few w)
