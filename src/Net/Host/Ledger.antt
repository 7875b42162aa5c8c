-- ===== src/Net/Host/Ledger.antt =====
-- The system of a program's set-up with a ledger: which descriptors are open, how often the network was
-- started and not shut down, and which sockets are bound.
use zcmesh.Base.{
  ℕ, ◌+◌, ◌-◌, ◌≡◌, refl, sym, ap, ◌∙◌, Bool, true, Bool-cases, inl, inr, Option, none, some, List,
  [], ◌∷◌, ◌==◌, ==_iff, if◌then◌else◌,
}
use zcmesh.Net.Api.{Endpoint}
use zcmesh.Net.Udp.{UdpSystem}
use zcmesh.Net.Host.{HostApi}

pub record Held : Type 0 where
  pub fds : List ℕ
  pub started : ℕ
  pub bound : List (ℕ × Endpoint)

-- without the last descriptor opened of this number
abbrev pub erase : ℕ → List ℕ → List ℕ
erase fd [] = []
erase fd (x ∷ xs) = if x == fd then xs else x ∷ erase fd xs

abbrev pub forget : ℕ → List (ℕ × Endpoint) → List (ℕ × Endpoint)
forget fd [] = []
forget fd ((x, ep) ∷ xs) = let rest = forget fd xs in if x == fd then rest else (x, ep) ∷ rest

abbrev pub opens : Option ℕ → Held → Held
opens none h = h
opens (some fd) h = record h { fds = fd ∷ h.fds }

abbrev pub closes : Option ℕ → Held → Held
closes none h = h
closes (some fd) h = record h { fds = erase fd h.fds; bound = forget fd h.bound }

abbrev pub binds : Bool → ℕ → Endpoint → Held → Held
binds ok fd ep h = if ok then record h { bound = (fd, ep) ∷ h.bound } else h

abbrev pub starts : Bool → Held → Held
starts ok h = if ok then record h { started = h.started + 1 } else h

abbrev pub shuts : Held → Held
shuts h = record h { started = h.started - 1 }

abbrev pub ledger_udp : {W : Type 0} → UdpSystem W → UdpSystem (W × Held)
ledger_udp sys = record {
  socket = λ s. let (r, w) = sys.socket s.0 in (r, (w, opens r s.1));
  set_nonblocking = λ fd s. let (r, w) = sys.set_nonblocking fd s.0 in (r, (w, s.1));
  resolve = λ ep s. let (r, w) = sys.resolve ep s.0 in (r, (w, s.1));
  reuse_address = λ fd s. (sys.reuse_address fd s.0, s.1);
  bind = λ fd ep s. let (r, w) = sys.bind fd ep s.0 in (r, (w, binds r fd ep s.1));
  recvfrom = λ fd n s. let (r, w) = sys.recvfrom fd n s.0 in (r, (w, s.1));
  connect = λ fd ep s. let (r, w) = sys.connect fd ep s.0 in (r, (w, s.1));
  send = λ fd bytes s. let (r, w) = sys.send fd bytes s.0 in (r, (w, s.1));
  sendto = λ fd ep bytes s. let (r, w) = sys.sendto fd ep bytes s.0 in (r, (w, s.1));
  dissociate = λ fd s. (sys.dissociate fd s.0, s.1);
  close_socket = λ fd s. (sys.close_socket fd s.0, closes fd s.1);
}

abbrev pub ledger : {W : Type 0} → HostApi W → HostApi (W × Held)
ledger host = record {
  udp = ledger_udp (host.udp);
  stream_socket = λ s. let (r, w) = host.stream_socket s.0 in (r, (w, opens r s.1));
  listen = λ fd s. let (r, w) = host.listen fd s.0 in (r, (w, s.1));
  accept = λ s. let (c, w) = host.accept s.0 in (c, (w, opens (some c) s.1));
  net_init = λ s. let (r, w) = host.net_init s.0 in (r, (w, starts r s.1));
  net_shutdown = λ s. (host.net_shutdown s.0, shuts s.1);
}

pub erase_self : (fd : ℕ) (xs : List ℕ) → erase fd (fd ∷ xs) ≡ xs
erase_self fd xs = let same : (fd == fd) ≡ true = (==_iff fd fd).1 refl in rw same refl

-- As many descriptors open, and the network as often started, as before.
abbrev pub SameHeld : Held → Held → Type 0
SameHeld h h' = (h'.fds ≡ h.fds) × (h'.started ≡ h.started)

pub erase_second : (a b : ℕ) (xs : List ℕ) → erase b (a ∷ b ∷ xs) ≡ a ∷ xs
erase_second a b xs = elim (Bool-cases (a == b)) [
  | inl same ↦ rw same (ap (λ x. x ∷ xs) (sym ((==_iff a b).0 same)))
  | inr other ↦ rw other (ap (◌∷◌ a) (erase_self b xs))
]

-- The descriptors of a datagram and of a stream socket in front of those before.
abbrev pub both_fds : Option ℕ → Option ℕ → List ℕ → List ℕ
both_fds none none xs = xs
both_fds (some u) none xs = u ∷ xs
both_fds none (some t) xs = t ∷ xs
both_fds (some u) (some t) xs = t ∷ u ∷ xs

-- Closing both, in either order, leaves those before.
pub closes_both :
    (udp tcp : Option ℕ) (h : Held) (xs : List ℕ)
    → h.fds ≡ both_fds udp tcp xs
    → ((closes tcp (closes udp h)).fds ≡ xs)
      × ((closes udp (closes tcp h)).fds ≡ xs)
      × ((closes tcp (closes udp h)).started ≡ h.started)
      × ((closes udp (closes tcp h)).started ≡ h.started)
closes_both none none h xs e = (e, e, refl, refl)
closes_both (some u) none h xs e =
    let one = ap (erase u) e ∙ erase_self u xs in (one, one, refl, refl)
closes_both none (some t) h xs e =
    let one = ap (erase t) e ∙ erase_self t xs in (one, one, refl, refl)
closes_both (some u) (some t) h xs e = (
  ap (λ l. erase t (erase u l)) e ∙ ap (erase t) (erase_second t u xs) ∙ erase_self t xs,
  ap (λ l. erase u (erase t l)) e ∙ ap (erase u) (erase_self t (u ∷ xs)) ∙ erase_self u xs,
  refl,
  refl,
)
