-- ===== src/Net/Udp/Attempts.antt =====
-- What `UdpSocket::send_to` and `open` of core-engine/src/net.cpp do to the system.
use zcmesh.Base.{
  ℕ, ◌≡◌, ◌⊎◌, refl, inl, inr, arith, Bool, true, false, Bool-cases, Option, none, some,
  Option-cases, List, [], ◌∷◌, ◌++◌, length, ◌==◌,
}
use zcmesh.Net.Api.{Endpoint}
use zcmesh.Net.Udp.{
  UdpSystem, UdpSocket, Associating, associated, is_connected, unreachable, took_all, close,
  open_on, open_socket, deliver_on, send_to,
}

-- One call of the system that sends, with what it answers.
pub record Attempt : Type 0 where
  pub bytes : List ℕ
  pub took : Option ℕ

-- The same system, with those calls recorded in order.
abbrev pub attempts : {W : Type 0} → UdpSystem W → UdpSystem (W × List Attempt)
attempts sys = record {
  socket = λ s. let (r, w) = sys.socket s.0 in (r, (w, s.1));
  set_nonblocking = λ fd s. let (r, w) = sys.set_nonblocking fd s.0 in (r, (w, s.1));
  resolve = λ ep s. let (r, w) = sys.resolve ep s.0 in (r, (w, s.1));
  reuse_address = λ fd s. (sys.reuse_address fd s.0, s.1);
  bind = λ fd ep s. let (r, w) = sys.bind fd ep s.0 in (r, (w, s.1));
  recvfrom = λ fd n s. let (r, w) = sys.recvfrom fd n s.0 in (r, (w, s.1));
  connect = λ fd ep s. let (r, w) = sys.connect fd ep s.0 in (r, (w, s.1));
  send = λ fd bytes s.
      let (r, w) = sys.send fd bytes s.0 in
      (r, (w, s.1 ++ record { bytes = bytes; took = r } ∷ []));
  sendto = λ fd ep bytes s.
      let (r, w) = sys.sendto fd ep bytes s.0 in
      (r, (w, s.1 ++ record { bytes = bytes; took = r } ∷ []));
  dissociate = λ fd s. (sys.dissociate fd s.0, s.1);
  close_socket = λ fd s. (sys.close_socket fd s.0, s.1);
}

module _ {W : Type 0} (sys : UdpSystem W) where
  -- Nothing was sent and the answer is false, or the bytes were sent once and the answer is whether the
  -- system took them all.
  abbrev pub Tried : List ℕ → List Attempt → Bool → List Attempt → Type 0
  Tried bytes log ok log' =
      ((ok ≡ false) × (log' ≡ log))
      ⊎ ((took : Option ℕ) × (log' ≡ log ++ record { bytes = bytes; took = took } ∷ [])
          × (ok ≡ took_all took bytes))

  deliver_on-Tried :
      (fd : ℕ) (ep : Endpoint) (bytes : List ℕ) (s : W × List Attempt)
      → let (ok, s') = deliver_on (attempts sys) fd ep bytes s in Tried bytes s.1 ok s'.1
  unfolding deliver_on
  deliver_on-Tried fd ep bytes s = by_answer (sys.connect fd ep s.0).0 refl
    where
      by_answer :
          (a : Associating)
          → (sys.connect fd ep s.0).0 ≡ a
          → let (ok, s') = deliver_on (attempts sys) fd ep bytes s in Tried bytes s.1 ok s'.1
      by_answer associated e = rw (e, deliver_on) (inr (_, refl, refl))
      by_answer is_connected e = rw (e, deliver_on) (inr (_, refl, refl))
      by_answer unreachable e = rw (e, deliver_on) (inr (_, refl, refl))

  -- UdpSocket::send_to makes the system send nothing and answers false, or makes it send exactly
  -- its bytes once and answers whether the system took them all; the descriptor stays.
  pub send_to-Tried :
      (ep : Endpoint) (bytes : List ℕ) (s : UdpSocket (W × List Attempt))
      → let (ok, s') = send_to (attempts sys) ep bytes s in
        Tried bytes s.system.1 ok s'.system.1 × (s'.fd ≡ s.fd)
  unfolding send_to
  send_to-Tried ep bytes s = elim (Option-cases s.fd) [
    | inl closed ↦ rw (closed, send_to) (inl (refl, refl), closed)
    | inr (fd, opened) ↦ elim (Bool-cases (length bytes == 0)) [
      | inl no_bytes ↦ rw (opened, no_bytes, send_to) (inl (refl, refl), opened)
      | inr some_bytes ↦ elim (Bool-cases (sys.resolve ep s.system.0).0) [
        | inr unknown ↦ rw (opened, some_bytes, unknown, send_to) (inl (refl, refl), opened)
        | inl known ↦
            rw (opened, some_bytes, known, send_to)
              (deliver_on-Tried fd ep bytes ((sys.resolve ep s.system.0).1, s.system.1), opened)
      ]
    ]
  ]

  abbrev is_open : Option ℕ → Bool
  is_open none = false
  is_open (some fd) = true

  open_on_lem : (r : Option ℕ × W) → is_open (open_on sys r).1.fd ≡ (open_on sys r).0
  unfolding open_on close
  open_on_lem (none, w) = refl
  open_on_lem (some fd, w) = ground arith

  open_socket_lem : (s : UdpSocket W) → is_open (open_socket sys s).1.fd ≡ (open_socket sys s).0
  unfolding open_socket
  open_socket_lem s = open_on_lem (sys.socket (close sys s).system)
