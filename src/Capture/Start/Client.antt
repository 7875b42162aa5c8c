-- ===== src/Capture/Start/Client.antt =====
-- The descriptor of the client of core-engine/src/capture.cpp over its loop.
use zcmesh.Base.{ℕ, ◌≡◌, ◌∙◌, ap, Bool, true, false, Option, none, some, List, [], ◌∷◌}
use zcmesh.Net.Host.{HostApi}
use zcmesh.Net.Host.Ledger.{Held, ledger, closes, erase, erase_self, erase_second}
use zcmesh.Capture.{Received, would_block, closed, got}
use zcmesh.Capture.Select.{Turn}
use zcmesh.Capture.Start.{accept_client, read_descriptor, client_descriptor}

module _ {W : Type 0} (host : HostApi W) where
  -- A client's descriptor in front of the others.
  abbrev pub client_fds : Option ℕ → List ℕ → List ℕ
  client_fds none xs = xs
  client_fds (some c) xs = c ∷ xs

  abbrev pub HasClient : List ℕ → ℕ → Option ℕ × (W × Held) → Type 0
  HasClient xs n (client, (w, h)) = (h.fds ≡ client_fds client xs) × (h.started ≡ n)

  accept_client-HasClient :
      (xs : List ℕ) (n : ℕ) (accepted : Bool) (s : Option ℕ × (W × Held))
      → HasClient xs n s
      → HasClient xs n (accept_client (ledger host) accepted s)
  accept_client-HasClient xs n false s h = h
  accept_client-HasClient xs n true (none, (w, h)) (fds, up) = (ap (◌∷◌ (host.accept w).0) fds, up)
  accept_client-HasClient xs n true (some old, (w, h)) (fds, up) =
      let c = (host.accept w).0 in (ap (λ l. erase old (c ∷ l)) fds ∙ erase_second c old xs, up)

  read_descriptor-HasClient :
      (xs : List ℕ) (n : ℕ) (r : Option Received) (s : Option ℕ × (W × Held))
      → HasClient xs n s
      → HasClient xs n (read_descriptor (ledger host) r s)
  read_descriptor-HasClient xs n none s h = h
  read_descriptor-HasClient xs n (some would_block) s h = h
  read_descriptor-HasClient xs n (some (got bytes)) s h = h
  read_descriptor-HasClient xs n (some closed) (none, (w, h)) held = held
  read_descriptor-HasClient xs n (some closed) (some c, (w, h)) (fds, up) =
      (ap (erase c) fds ∙ erase_self c xs, up)

  pub client_descriptor-HasClient :
      (xs : List ℕ) (n : ℕ) (ts : List Turn) (s : Option ℕ × (W × Held))
      → HasClient xs n s
      → HasClient xs n (client_descriptor (ledger host) ts s)
  client_descriptor-HasClient xs n [] s h = h
  client_descriptor-HasClient xs n (t ∷ ts) s h =
      client_descriptor-HasClient xs n ts
        (read_descriptor (ledger host) t.from_client (accept_client (ledger host) t.accepted s))
        (read_descriptor-HasClient xs n t.from_client (accept_client (ledger host) t.accepted s)
          (accept_client-HasClient xs n t.accepted s h))

  -- The client's descriptor closed after the loop.
  pub client_closed :
      (xs : List ℕ) (n : ℕ) (s : Option ℕ × (W × Held))
      → HasClient xs n s
      → ((closes s.0 s.1.1).fds ≡ xs) × ((closes s.0 s.1.1).started ≡ n)
  client_closed xs n (none, (w, h)) held = held
  client_closed xs n (some c, (w, h)) (fds, up) = (ap (erase c) fds ∙ erase_self c xs, up)
