-- ===== src/Capture/Select.antt =====
-- `main` of core-engine/src/capture.cpp from the opened file on: the loop over what `select` reports,
-- and the header before and after it. Sockets are closed without a result.
pub mod Kept
pub mod Written
use zcmesh.Base.{
  ℕ, ◌==◌, not, Bool, true, false, Option, none, some, List, [], ◌∷◌, ltb, if◌then◌else◌,
}
use zcmesh.Zcm.{SeekApi, rewrite_header}
use zcmesh.Capture.{Received, Session, Decoder, on_accept, on_client, on_udp}

-- What a turn finds: a connection accepted, what the client's socket gives where it is readable, and
-- the same for the datagram socket.
pub record Turn : Type 0 where
  pub accepted : Bool
  pub from_client : Option Received
  pub from_udp : Option (Option (List ℕ))

module _ {W : Type 0} (api : SeekApi W) where
  abbrev pub Running : Type 0
  Running = Session (api.file)

  -- `FD_ISSET` of a client that is connected
  abbrev pub read_client : Option Received → Running → Running
  read_client none s = s
  read_client (some r) s = if s.client then on_client (api.file) r s else s

  abbrev pub read_udp : Option (Option (List ℕ)) → Running → Running
  read_udp none s = s
  read_udp (some r) s = record s { decoder = on_udp (api.file) r s.decoder }

  unfoldable pub select_turn : Turn → Running → Running
  select_turn t s =
      let s1 = if t.accepted then on_accept (api.file) s else s in
      read_udp t.from_udp (read_client t.from_client s1)

  pub select_loop : List Turn → Running → Running
  select_loop [] s = s
  select_loop (t ∷ ts) s = select_loop ts (select_turn t s)

  abbrev pub new_session : W → Running
  new_session w = record {
    client = false;
    stream = [];
    decoder = record { ok = 0; drop = 0; resync = 0; out = w };
  }

  -- The exit code, and the counters and file at the end; the turns are those before the deadline.
  unfoldable pub capture : List Turn → W → ℕ × Decoder W
  capture ts w =
      let (opened, w1) = rewrite_header api 0 w in
      let s = select_loop ts (new_session w1) in
      let (closed, w2) = rewrite_header api s.decoder.ok s.decoder.out in
      let d = record (s.decoder) { out = w2 } in
      if not opened
      then (1, (new_session w1).decoder)
      else if not closed
      then (1, d)
      else ((if ltb 0 d.ok then 0 else 1), d)
