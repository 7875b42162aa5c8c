-- ===== src/Control.antt =====
-- shared/mesh_control.h, the sender's message in core-engine/src/ctl.cpp and `poll_control` of
-- core-engine/src/main.cpp: the operator's datagrams that skip hops of a route.
pub mod Messages
pub mod Command
use zcmesh.Base.{
  ℕ, ◌+◌, ◌%◌, ◌^◌, bit_and, not, ◌||◌, Bool, true, false, List, [], ◌∷◌, ◌++◌, ltb, ◌==◌,
  if◌then◌else◌, length, get_or, le16, of_le16,
}
use zcmesh.Router.{MeshRouter, set_hop_skip_mask}

abbrev pub ctrl_magic : ℕ
ctrl_magic = 0x434D

abbrev pub ctrl_version : ℕ
ctrl_version = 1

abbrev pub ctrl_size : ℕ
ctrl_size = 8

abbrev pub op_set_skip : ℕ
op_set_skip = 1

abbrev pub op_clear : ℕ
op_clear = 2

pub record CtrlMsg : Type 0 where
  pub magic : ℕ
  pub version : ℕ
  pub opcode : ℕ
  pub node_id : ℕ
  pub mask : ℕ
  pub reserved : ℕ

unfoldable pub msg_bytes : CtrlMsg → List ℕ
msg_bytes m =
    le16 m.magic ++ (m.version ∷ m.opcode ∷ (le16 m.node_id ++ (m.mask ∷ m.reserved ∷ [])))

-- `memcpy(&msg, buf, 8)`
unfoldable pub msg_of_bytes : List ℕ → CtrlMsg
msg_of_bytes b = record {
  magic = of_le16 (get_or b 0 0) (get_or b 1 0);
  version = get_or b 2 0;
  opcode = get_or b 3 0;
  node_id = of_le16 (get_or b 4 0) (get_or b 5 0);
  mask = get_or b 6 0;
  reserved = get_or b 7 0;
}

-- The message of `zcmesh_ctl`; it has refused a negative mask without `--clear`.
unfoldable pub ctl_message : Bool → ℕ → ℕ → CtrlMsg
ctl_message clear node_id mask = record {
  magic = ctrl_magic;
  version = ctrl_version;
  opcode = if clear then op_clear else op_set_skip;
  node_id = node_id;
  mask = if clear then 0 else bit_and mask 0xFF % 2 ^ 8;
  reserved = 0;
}

-- What one `recv_nb` gives: `n` bytes of a datagram, nothing (0), or an error (-1).
pub data Received : Type 0 where
  datagram : List ℕ → Received
  would_block broken : Received

-- the body of the loop, for a datagram
unfoldable pub handle_control : List ℕ → MeshRouter → MeshRouter
handle_control bytes router =
    let msg = msg_of_bytes bytes in
    if ltb (length bytes) ctrl_size
    then router
    else if not (msg.magic == ctrl_magic) || not (msg.version == ctrl_version)
    then router
    else if msg.opcode == op_set_skip
    then (set_hop_skip_mask router msg.node_id msg.mask).1
    else if msg.opcode == op_clear
    then (set_hop_skip_mask router msg.node_id 0).1
    else router

-- The loop, over what the successive receives give; the queue of the socket is finite, and behind it
-- a receive would block. An empty datagram reads as 0 and ends the loop too.
pub poll_control : List Received → MeshRouter → MeshRouter
poll_control [] router = router
poll_control (would_block ∷ rs) router = router
poll_control (broken ∷ rs) router = router
poll_control (datagram [] ∷ rs) router = router
poll_control (datagram (x ∷ xs) ∷ rs) router = poll_control rs (handle_control (x ∷ xs) router)
