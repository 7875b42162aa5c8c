-- ===== src/Edge/Mesh.antt =====
-- The flushes of core-engine/src/main.cpp over UDP and the datagrams that they send.
use zcmesh.Base.{
  ℕ, ◌+◌, ◌/◌, ◌≤◌, ◌≡◌, refl, sym, ◌∙◌, ap, arith, Bool, false, List, [], ◌∷◌, ◌++◌, append-nil,
  append_assoc, length, take, drop, if◌then◌else◌, ◌==◌, ◌⊎◌, inl, inr, none, some, All,
}
use native.Mathlib.Nat.{zero-add}
use zcmesh.Wire.Frame.{Frame, frame_bytes}
use zcmesh.Net.Api.{Endpoint, Datagram, logged}
use zcmesh.Batch.{FrameBatch, contents, clear, unsent_count, unsent_frames, discard_fully_sent}
use zcmesh.Batch.Validity.{IsValid, discard_fully_sent-IsValid, clear-IsValid}
use zcmesh.Batch.Contents.{unsent, unsent_frames_lem, discard_fully_sent_lem}
use zcmesh.Router.{RouteEntry, MeshRouter, forward_udp, forward_route}
use zcmesh.Router.Table.{forward_udp_lem, route_of}
use zcmesh.Router.Sending.{Tries, ToAllowed, forward_route-Sent}
use zcmesh.Edge.{EdgeApi, watched, send_all, flush_udp_direct, forward_all, flush_udp_mesh}

-- The datagrams of a record that went out.
abbrev pub count_sent : List Datagram → ℕ
count_sent [] = 0
count_sent (d ∷ ds) = (if d.sent then 1 else 0) + count_sent ds

-- One datagram for each frame, in order, all to the endpoint.
abbrev pub Offered : Endpoint → List Frame → List Datagram → Type 0
Offered ep [] [] = Unit
Offered ep [] (d ∷ ds) = ⊥
Offered ep (f ∷ fs) [] = ⊥
Offered ep (f ∷ fs) (d ∷ ds) = (d.to ≡ ep) × (d.bytes ≡ frame_bytes f) × Offered ep fs ds

-- For each frame in order a run of datagrams with its bytes, of which at most one went out.
abbrev pub Covered : List Frame → List Datagram → Type 0
Covered [] new = new ≡ []
Covered (f ∷ fs) new =
    (xs : List Datagram) × (ys : List Datagram) × (new ≡ xs ++ ys)
    × All (λ d. d.bytes ≡ frame_bytes f) xs
    × (count_sent xs ≤ 1)
    × Covered fs ys

-- What `discard_fully_sent` leaves is what the two flushes walk over.
walked :
    (b : FrameBatch)
    → IsValid b
    → let b' = discard_fully_sent b in
      (take (unsent_count b') (unsent_frames b') ≡ unsent b) × (unsent_count b' ≡ length (unsent b))
walked b v =
    let b' = discard_fully_sent b in
    let (kept, offset) = discard_fully_sent_lem b v in
    let (frames, count) = unsent_frames_lem b' (discard_fully_sent-IsValid b v) in
    let first : b'.send_offset / 24 ≡ 0 = ground arith in
    let same : unsent b' ≡ unsent b = ap (λ k. drop k (contents b')) first ∙ kept in
    (frames ∙ same, count ∙ ap length same)

count_sent-append : (xs ys : List Datagram) → count_sent (xs ++ ys) ≡ count_sent xs + count_sent ys
count_sent-append [] ys = omega arith
count_sent-append (x ∷ xs) ys = omega (arith, count_sent-append xs ys)

Tries-count :
    (e : RouteEntry) (bytes : List ℕ) (ok : Bool) (xs : List Datagram)
    → Tries (ToAllowed e bytes) ok xs
    → All (λ d. d.bytes ≡ bytes) xs × (count_sent xs ≡ (if ok then 1 else 0))
Tries-count e bytes ok [] t = (tt, rw t)
Tries-count e bytes ok (d ∷ ds) ((i, _, _, same), inl (sent, good, last)) =
    rw (last, sent, good) ((same, tt), refl)
Tries-count e bytes ok (d ∷ ds) ((i, _, _, same), inr (refused, rest)) =
    let (all, count) = Tries-count e bytes ok ds rest in
    rw refused ((same, all), omega (arith, count))

module _ {W : Type 0} (api : EdgeApi W) where
  -- What one call of `forward_udp` adds to the record.
  forward_udp-run :
      (router : MeshRouter) (node_id : ℕ) (bytes : List ℕ) (now : ℕ) (w : W) (log : List Datagram)
      → let (ok, router', s) = forward_udp (logged api.udp) router node_id bytes now (w, log) in
        (xs : List Datagram) × (s.1 ≡ log ++ xs)
        × All (λ d. d.bytes ≡ bytes) xs
        × (count_sent xs ≡ (if ok then 1 else 0))
  forward_udp-run router node_id bytes now w log =
      by_route (forward_udp_lem (logged api.udp) router node_id bytes now (w, log) 0)
    where
      r : Bool × MeshRouter × (W × List Datagram)
      r = forward_udp (logged api.udp) router node_id bytes now (w, log)

      by_route :
          ((e : RouteEntry) × (route_of router node_id ≡ some e)
              × (r.0 ≡ (forward_route (logged api.udp) e bytes now (w, log)).0)
              × (r.2 ≡ (forward_route (logged api.udp) e bytes now (w, log)).2)
              × (route_of r.1 0 ≡ (
                  if 0 == node_id
                  then some (forward_route (logged api.udp) e bytes now (w, log)).1
                  else route_of router 0)))
            ⊎ ((route_of router node_id ≡ none) × (r.0 ≡ false) × (r.1 ≡ router) × (r.2 ≡ (w, log)))
          → (xs : List Datagram) × (r.2.1 ≡ log ++ xs)
            × All (λ d. d.bytes ≡ bytes) xs
            × (count_sent xs ≡ (if r.0 then 1 else 0))
      by_route (inl (e, _, ok, world, _)) =
          let (xs, grown, tries) = forward_route-Sent api.udp e bytes now w log in
          let (all, count) = Tries-count e bytes _ xs tries in
          (xs, ap (λ s. s.1) world ∙ grown, all, count ∙ ap (λ t. if t then 1 else 0) (sym ok))
      by_route (inr (_, ok, _, world)) = ([], ap (λ s. s.1) world ∙ sym (append-nil log), tt, rw ok)

  forward_all-Covered :
      (fs : List Frame) (router : MeshRouter) (node_id now acc : ℕ) (w : W) (log : List Datagram)
      → let (n, router', s) = forward_all (watched api) router node_id fs now acc (w, log) in
        (new : List Datagram) × (s.1 ≡ log ++ new) × Covered fs new × (n ≡ acc + count_sent new)
  unfolding forward_all
  forward_all-Covered [] router node_id now acc w log =
      ([], sym (append-nil log), refl, omega arith)
  forward_all-Covered (f ∷ fs) router node_id now acc w log =
      let r = forward_udp (logged api.udp) router node_id (frame_bytes f) now (w, log) in
      let (xs, grown, all, count) = forward_udp-run router node_id (frame_bytes f) now w log in
      let (ys, rest, covered, total) =
        forward_all-Covered fs r.1 node_id now (if r.0 then acc + 1 else acc) r.2.0 r.2.1 in
      (
        xs ++ ys,
        rest ∙ ap (λ l. l ++ ys) grown ∙ append_assoc log xs ys,
        (xs, ys, refl, all, ground (arith, count), covered),
        ground (arith, total, count, count_sent-append xs ys),
      )

  -- A walk over the frames, in order: each frame is handed once to the forwarder, with the routes that the
  -- frame before it left, which adds its own datagrams to the record.
  abbrev pub Walks :
      ℕ → ℕ → List Frame → MeshRouter → W × List Datagram → MeshRouter → W × List Datagram → Type 0
  Walks node_id now [] router s router' s' = (router' ≡ router) × (s' ≡ s)
  Walks node_id now (f ∷ fs) router s router' s' =
      (ok : Bool) × (router1 : MeshRouter) × (s1 : W × List Datagram) × (xs : List Datagram)
      × (forward_udp (logged api.udp) router node_id (frame_bytes f) now s ≡ (ok, router1, s1))
      × (s1.1 ≡ s.1 ++ xs)
      × All (λ d. d.bytes ≡ frame_bytes f) xs
      × (count_sent xs ≡ (if ok then 1 else 0))
      × Walks node_id now fs router1 s1 router' s'

  forward_all-Walks :
      (fs : List Frame) (router : MeshRouter) (node_id now acc : ℕ) (s : W × List Datagram)
      → let (n, router', s') = forward_all (watched api) router node_id fs now acc s in
        Walks node_id now fs router s router' s'
  unfolding forward_all
  forward_all-Walks [] router node_id now acc s = (refl, refl)
  forward_all-Walks (f ∷ fs) router node_id now acc s =
      let r = forward_udp (logged api.udp) router node_id (frame_bytes f) now s in
      let (xs, grown, all, count) = forward_udp-run router node_id (frame_bytes f) now s.0 s.1 in
      (
        r.0,
        r.1,
        r.2,
        xs,
        refl,
        grown,
        all,
        count,
        forward_all-Walks fs r.1 node_id now (if r.0 then acc + 1 else acc) r.2,
      )

  -- Of a valid batch, the mesh flush hands each frame that TCP has not fully taken once to the
  -- forwarder, in order, with the routes that the frame before it left; the datagrams recorded
  -- are those of these calls, each frame goes out at most once, the answer is true exactly if all
  -- went out, and the batch is left empty and valid.
  pub flush_udp_mesh_lem :
      (router : MeshRouter) (node_id : ℕ) (b : FrameBatch) (w : W) (log : List Datagram)
      → IsValid b
      → let (ok, router', b', s) = flush_udp_mesh (watched api) router node_id b (w, log) in
        let (now, w1) = api.monotonic_ns w in
        (new : List Datagram) × (s.1 ≡ log ++ new)
        × Walks node_id now (unsent b) router (w1, log) router' s
        × Covered (unsent b) new
        × (ok ≡ (count_sent new == length (unsent b)))
        × (b'.count ≡ 0)
        × (b'.send_offset ≡ 0)
        × IsValid b'
  unfolding flush_udp_mesh clear
  flush_udp_mesh_lem router node_id b w log v =
      let (frames, count) = walked b v in
      let (new, grown, covered, total) =
        forward_all-Covered (unsent b) router node_id (api.monotonic_ns w).0 0
          (api.monotonic_ns w).1 log in
      (
        new,
        rw frames grown,
        rw frames (
            forward_all-Walks (unsent b) router node_id (api.monotonic_ns w).0 0
              ((api.monotonic_ns w).1, log)),
        covered,
        rw (frames, count) (ap (λ n. n == length (unsent b)) (total ∙ zero-add (count_sent new))),
        refl,
        refl,
        clear-IsValid (discard_fully_sent b) (discard_fully_sent-IsValid b v),
      )

  -- The batch after `flush_udp_mesh`, over any sockets.
  pub flush_udp_mesh-empty :
      (router : MeshRouter) (node_id : ℕ) (b : FrameBatch) (w : W)
      → IsValid b
      → let (ok, router', b', s) = flush_udp_mesh api router node_id b w in
        (b'.count ≡ 0) × (b'.send_offset ≡ 0) × IsValid b'
  unfolding flush_udp_mesh clear
  flush_udp_mesh-empty router node_id b w v =
      (refl, refl, clear-IsValid (discard_fully_sent b) (discard_fully_sent-IsValid b v))

  pub flush_udp_direct-empty :
      (ep : Endpoint) (b : FrameBatch) (w : W)
      → IsValid b
      → let (ok, b', s) = flush_udp_direct api ep b w in
        (b'.count ≡ 0) × (b'.send_offset ≡ 0) × IsValid b'
  unfolding flush_udp_direct clear
  flush_udp_direct-empty ep b w v =
      (refl, refl, clear-IsValid (discard_fully_sent b) (discard_fully_sent-IsValid b v))

  send_all-Offered :
      (fs : List Frame) (ep : Endpoint) (acc : ℕ) (w : W) (log : List Datagram)
      → let (n, s) = send_all (watched api) ep fs acc (w, log) in
        (new : List Datagram) × (s.1 ≡ log ++ new) × Offered ep fs new × (n ≡ acc + count_sent new)
  unfolding send_all
  send_all-Offered [] ep acc w log = ([], sym (append-nil log), tt, omega arith)
  send_all-Offered (f ∷ fs) ep acc w log =
      let (ok, w') = api.udp.send_to ep (frame_bytes f) w in
      let d : Datagram = record { to = ep; bytes = frame_bytes f; sent = ok } in
      let (ys, rest, offered, total) =
        send_all-Offered fs ep (if ok then acc + 1 else acc) w' (log ++ d ∷ []) in
      (d ∷ ys, rest ∙ append_assoc log (d ∷ []) ys, (refl, refl, offered), ground (arith, total))

  -- Of a valid batch, the direct flush sends each frame that TCP has not fully taken once, in
  -- order, to the operator, answers true exactly if all went out, and leaves the batch empty and
  -- valid.
  pub flush_udp_direct_lem :
      (ep : Endpoint) (b : FrameBatch) (w : W) (log : List Datagram)
      → IsValid b
      → let (ok, b', s) = flush_udp_direct (watched api) ep b (w, log) in
        (new : List Datagram) × (s.1 ≡ log ++ new)
        × Offered ep (unsent b) new
        × (ok ≡ (count_sent new == length (unsent b)))
        × (b'.count ≡ 0)
        × (b'.send_offset ≡ 0)
        × IsValid b'
  unfolding flush_udp_direct clear
  flush_udp_direct_lem ep b w log v =
      let (frames, count) = walked b v in
      let (new, grown, offered, total) = send_all-Offered (unsent b) ep 0 w log in
      (
        new,
        rw frames grown,
        offered,
        rw (frames, count) (ap (λ n. n == length (unsent b)) (total ∙ zero-add (count_sent new))),
        refl,
        refl,
        clear-IsValid (discard_fully_sent b) (discard_fully_sent-IsValid b v),
      )
