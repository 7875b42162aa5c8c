-- ===== src/Control/Messages.antt =====
-- The operator's messages reach the route table, in order, and nothing else does.
use zcmesh.Base.{
  ℕ, ◌+◌, ◌*◌, ◌/◌, ◌%◌, ◌^◌, ◌<◌, ◌≡◌, ◌≢◌, arith, Bool, true, false, List, [], ◌∷◌, ◌++◌, length,
  ◌⊎◌, if◌then◌else◌,
}
use zcmesh.Bits.Masks.{bit_and_byte}
use zcmesh.Router.{MeshRouter, set_hop_skip_mask}
use zcmesh.Router.Invariant.{IsRouter, set_hop_skip_mask-IsRouter}
use zcmesh.Control.{
  Received, datagram, would_block, broken, msg_bytes, msg_of_bytes, ctl_message, handle_control,
  poll_control,
}

-- Of a 16-bit node, what zcmesh_ctl sends makes the edge set the low byte of the mask on the
-- node's route, or 0 for CLEAR, also if bytes follow the message.
pub handle_control-ctl_message :
    (clear : Bool) (node_id mask : ℕ) (rest : List ℕ) (router : MeshRouter)
    → node_id < 2 ^ 16
    → handle_control (msg_bytes (ctl_message clear node_id mask) ++ rest) router
      ≡ (set_hop_skip_mask router node_id (if clear then 0 else mask % 256)).1
unfolding handle_control msg_bytes msg_of_bytes ctl_message
handle_control-ctl_message true node_id mask rest router h =
    let node : node_id % 256 + 256 * (node_id / 256 % 256) ≡ node_id = omega arith in ground arith
handle_control-ctl_message false node_id mask rest router h =
    let node : node_id % 256 + 256 * (node_id / 256 % 256) ≡ node_id = omega arith in
    ground (arith, bit_and_byte mask)

-- A datagram that is too short, or has another magic, version or opcode, leaves the router as it
-- was.
handle_control_ignores :
    (bytes : List ℕ) (router : MeshRouter)
    → (length bytes < 8)
      ⊎ ((msg_of_bytes bytes).magic ≢ 0x434D)
      ⊎ ((msg_of_bytes bytes).version ≢ 1)
      ⊎ (((msg_of_bytes bytes).opcode ≢ 1) × ((msg_of_bytes bytes).opcode ≢ 2))
    → handle_control bytes router ≡ router
unfolding handle_control
handle_control_ignores bytes router h = ground arith

handle_control-IsRouter :
    (bytes : List ℕ) (router : MeshRouter)
    → IsRouter router
    → IsRouter (handle_control bytes router)
unfolding handle_control
handle_control-IsRouter bytes router v =
    let msg = msg_of_bytes bytes in
    ground (
      arith,
      set_hop_skip_mask-IsRouter router msg.node_id msg.mask v,
      set_hop_skip_mask-IsRouter router msg.node_id 0 v,
    )

-- A poll keeps the route table valid, whatever is received.
poll_control-IsRouter :
    (rs : List Received) (router : MeshRouter) → IsRouter router → IsRouter (poll_control rs router)
unfolding poll_control
poll_control-IsRouter [] router v = v
poll_control-IsRouter (would_block ∷ rs) router v = v
poll_control-IsRouter (broken ∷ rs) router v = v
poll_control-IsRouter (datagram [] ∷ rs) router v = v
poll_control-IsRouter (datagram (x ∷ xs) ∷ rs) router v =
    poll_control-IsRouter rs (handle_control (x ∷ xs) router)
      (handle_control-IsRouter (x ∷ xs) router v)
