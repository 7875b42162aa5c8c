-- ===== src/Router/Deliver/Handed.antt =====
-- What `MeshRouter::deliver` of core-engine/src/router.cpp leaves on the TCP stream and gives to the mesh.
use zcmesh.Base.{
  ℕ, zero, suc, ◌+◌, ◌-◌, ◌≤◌, ◌<◌, ◌≡◌, ◌⊎◌, refl, sym, subst, ◌∙◌, ap, arith, Bool, true, false,
  ◌&&◌, Bool-cases, inl, inr, Option, none, some, List, [], ◌++◌, append_assoc, append-nil, length,
  length-drop, take, drop, take-add, drop-drop, take-all, ltb, ltb→lt, ltb→le, ◌==◌, ==_iff,
}
use zcmesh.Net.Api.{TcpApi, UdpApi, IsTcp, recorded, accepted}
use zcmesh.Router.{MeshRouter, forward_udp}
use zcmesh.Router.Deliver.{deliver_loop, deliver}

module _ {W : Type 0} (tcp : TcpApi W) (laws : IsTcp tcp) (udp : UdpApi (W × List ℕ)) where
  -- The socket takes none of these bytes.
  abbrev pub Stalls : List ℕ → Type 0
  Stalls bytes = (w : W) × (((tcp.send_nb bytes w).0 ≡ none) ⊎ ((tcp.send_nb bytes w).0 ≡ some 0))

  -- The loop has sent up to `sent'`, which is all, or where the socket stalled.
  abbrev pub Sent : List ℕ → ℕ → List ℕ → ℕ → List ℕ → Type 0
  Sent bytes sent tape sent' tape' =
      (sent ≤ sent')
      × (sent' ≤ length bytes)
      × (tape' ≡ tape ++ take (sent' - sent) (drop sent bytes))
      × ((sent' ≡ length bytes) ⊎ Stalls (drop sent' bytes))

  Sent-still :
      (bytes : List ℕ) (sent : ℕ) (tape : List ℕ)
      → sent ≤ length bytes
      → (sent ≡ length bytes) ⊎ Stalls (drop sent bytes)
      → Sent bytes sent tape sent tape
  Sent-still bytes sent tape le ends =
      let none_more : sent - sent ≡ 0 = omega arith in
      (
        omega arith,
        le,
        sym (ap (λ n. tape ++ take n (drop sent bytes)) none_more ∙ append-nil tape),
        ends,
      )

  kept :
      {tape bytes : List ℕ} {w : W} (r : Option ℕ)
      → (tcp.send_nb bytes w).0 ≡ r
      → accepted bytes r ≡ []
      → tape ++ accepted bytes (tcp.send_nb bytes w).0 ≡ tape
  kept {tape} {bytes} r e none_taken =
      ap (λ a. tape ++ accepted bytes a) e ∙ ap (◌++◌ tape) none_taken ∙ append-nil tape

  Sent-more :
      (bytes : List ℕ) (sent n : ℕ) (tape : List ℕ) (sent' : ℕ) (tape' : List ℕ)
      → Sent bytes (sent + n) (tape ++ take n (drop sent bytes)) sent' tape'
      → Sent bytes sent tape sent' tape'
  Sent-more bytes sent n tape sent' tape' (ge, le, on, ends) =
      let parts : sent' - sent ≡ n + (sent' - (sent + n)) = omega (arith, ge) in
      (
        omega (arith, ge),
        le,
        on
            ∙ append_assoc tape (take n (drop sent bytes))
                (take (sent' - (sent + n)) (drop (sent + n) bytes))
            ∙ ap (λ l. tape ++ (take n (drop sent bytes) ++ take (sent' - (sent + n)) l))
                (sym (drop-drop n sent bytes))
            ∙ ap (◌++◌ tape) (
                sym (take-add n (sent' - (sent + n)) (drop sent bytes))
                ∙ ap (λ k. take k (drop sent bytes)) (sym parts)),
        ends,
      )

  Sent-taken :
      (bytes : List ℕ) (sent n : ℕ) (tape : List ℕ) (r : Option ℕ) (sent' : ℕ) (tape' : List ℕ)
      → r ≡ some n
      → Sent bytes (sent + n) (tape ++ accepted (drop sent bytes) r) sent' tape'
      → Sent bytes sent tape sent' tape'
  Sent-taken bytes sent n tape r sent' tape' e s = Sent-more bytes sent n tape sent' tape' (
      subst (λ t. Sent bytes (sent + n) t sent' tape')
        (ap (λ o. tape ++ accepted (drop sent bytes) o) e) s)

  deliver_loop-Sent :
      (fuel : ℕ) (bytes : List ℕ) (sent : ℕ) (w : W) (tape : List ℕ)
      → sent ≤ length bytes
      → length bytes < sent + fuel
      → let (sent', s) = deliver_loop (recorded tcp) udp fuel bytes sent (w, tape) in
        Sent bytes sent tape sent' s.1
  unfolding deliver_loop
  deliver_loop-Sent zero bytes sent w tape le enough = absurd (omega arith)
  deliver_loop-Sent (suc fuel) bytes sent w tape le enough =
      elim (Bool-cases (ltb sent (length bytes))) [
        | inr all ↦
            rw (all, deliver_loop)
              (Sent-still bytes sent tape le (inl (omega (arith, le, ltb→le _ _ all))))
        | inl more ↦ by_answer more (tcp.send_nb (drop sent bytes) w).0 refl (λ n h k.
            deliver_loop-Sent fuel bytes (sent + suc n) (tcp.send_nb (drop sent bytes) w).1
              (tape ++ accepted (drop sent bytes) (tcp.send_nb (drop sent bytes) w).0) h k)
      ]
    where
      by_answer :
          ltb sent (length bytes) ≡ true
          → (r : Option ℕ) → (tcp.send_nb (drop sent bytes) w).0 ≡ r
          → ((n : ℕ)
              → sent + suc n ≤ length bytes
              → length bytes < sent + suc n + fuel
              → let (r', w') = tcp.send_nb (drop sent bytes) w in
                let tape1 = tape ++ accepted (drop sent bytes) r' in
                let (sent', s) =
                  deliver_loop (recorded tcp) udp fuel bytes (sent + suc n) (w', tape1) in
                Sent bytes (sent + suc n) tape1 sent' s.1)
          → let (sent', s) = deliver_loop (recorded tcp) udp (suc fuel) bytes sent (w, tape) in
            Sent bytes sent tape sent' s.1
      by_answer more none e later =
          rw (more, e, deliver_loop)
            (subst (λ t. Sent bytes sent tape sent t) (sym (kept _ e refl))
              (Sent-still bytes sent tape le (inr (w, inl e))))
      by_answer more (some zero) e later =
          rw (more, e, deliver_loop)
            (subst (λ t. Sent bytes sent tape sent t) (sym (kept _ e refl))
              (Sent-still bytes sent tape le (inr (w, inr e))))
      by_answer more (some (suc n)) e later =
          let bound : suc n ≤ length (drop sent bytes) =
            laws.send_le (drop sent bytes) w (suc n) e in
          let fits = length-drop sent bytes in
          rw (more, e, deliver_loop)
            (Sent-taken bytes sent (suc n) tape (tcp.send_nb (drop sent bytes) w).0 _ _ e
              (later n (omega (arith, bound, fits, ltb→lt _ _ more)) (omega arith)))

  -- All bytes are on the stream, or a first part of them where the socket stalled, and then the mesh is
  -- given all of them; without the wish for TCP or a connection only the mesh is asked.
  abbrev pub Handed :
      MeshRouter → ℕ → List ℕ → Bool → ℕ → W × List ℕ → Bool × MeshRouter × (W × List ℕ) → Type 0
  Handed m node_id bytes prefer_tcp now_ns s r =
      ((prefer_tcp && tcp.connected s.0 ≡ false) × (r ≡ forward_udp udp m node_id bytes now_ns s))
      ⊎ ((w : W) × (prefer_tcp && tcp.connected s.0 ≡ true) × (r ≡ (true, m, (w, s.1 ++ bytes))))
      ⊎ ((w : W) × (k : ℕ) × (prefer_tcp && tcp.connected s.0 ≡ true)
          × (k < length bytes)
          × Stalls (drop k bytes)
          × (r ≡ forward_udp udp m node_id bytes now_ns (w, s.1 ++ take k bytes)))

  -- Over a TCP client with the client laws, deliver puts all its bytes on the stream and answers
  -- true with the routes unchanged; or the socket stalls behind a first part of them, which stays
  -- on the stream, and the mesh is given the whole datagram; or TCP is not wished for or not
  -- connected, and the mesh is given the datagram with nothing on the stream.
  pub deliver-Handed :
      (m : MeshRouter) (node_id : ℕ) (bytes : List ℕ) (prefer_tcp : Bool) (now_ns : ℕ)
      (s : W × List ℕ)
      → Handed m node_id bytes prefer_tcp now_ns s
          (deliver (recorded tcp) udp m node_id bytes prefer_tcp now_ns s)
  unfolding deliver
  deliver-Handed m node_id bytes prefer_tcp now_ns s =
      let (sent, s') = deliver_loop (recorded tcp) udp (length bytes + 1) bytes 0 s in
      let (ge, le, on, ends) =
        deliver_loop-Sent (length bytes + 1) bytes 0 s.0 s.1 (omega arith) (omega arith) in
      let part : s' ≡ (s'.0, s.1 ++ take sent bytes) =
        ap (λ t. (s'.0, t)) (on ∙ ap (λ n. s.1 ++ take n bytes) (omega arith)) in
      elim (Bool-cases (prefer_tcp && tcp.connected s.0)) [
        | inr mesh_only ↦ rw mesh_only (inl (refl, refl))
        | inl tried ↦ elim (Bool-cases (sent == length bytes)) [
          | inl all ↦
              let whole : take sent bytes ≡ bytes =
                take-all sent bytes (omega (arith, (==_iff _ _).0 all)) in
              rw (tried, all)
                (inr (
                  inl
                    (s'.0, refl, ap (λ t. (true, m, t)) (part ∙ ap (λ l. (s'.0, s.1 ++ l)) whole))))
          | inr some_left ↦
              let less : sent < length bytes = ground (arith, le, some_left) in
              rw (tried, some_left)
                (inr (
                  inr (
                    s'.0,
                    sent,
                    refl,
                    less,
                    stalled sent less ends,
                    ap (forward_udp udp m node_id bytes now_ns) part,
                  )))
        ]
      ]
    where
      stalled :
          (k : ℕ)
          → k < length bytes
          → (k ≡ length bytes) ⊎ Stalls (drop k bytes)
          → Stalls (drop k bytes)
      stalled k less (inl all) = absurd (omega arith)
      stalled k less (inr st) = st
