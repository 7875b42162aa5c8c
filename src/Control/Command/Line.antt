-- ===== src/Control/Command/Line.antt =====
-- From a command line of core-engine/src/ctl.cpp to the route of an edge.
use zcmesh.Base.{
  ℕ, ◌%◌, ◌^◌, ◌<◌, ◌≡◌, refl, sym, subst, ◌∙◌, ap, ap₂, Bool, if◌then◌else◌, arith, true, false,
  Option, none, some, List, [], ◌∷◌, append-nil, length,
}
use zcmesh.Net.Api.{Endpoint}
use zcmesh.Net.Endpoints.Printing.{
  decimal, endpoint_text, parse_endpoint-endpoint_text, atoi_u16-decimal, atoi_int-decimal,
}
use zcmesh.Router.{MeshRouter, set_hop_skip_mask}
use zcmesh.Control.{ctl_message, msg_bytes, handle_control}
use zcmesh.Control.Messages.{handle_control-ctl_message}
use zcmesh.Control.Command.{
  target_text, node_id_text, skip_text, clear_text, parse_ctl, ctl_defaults, ctl,
}

abbrev pub skip_line : Endpoint → ℕ → ℕ → List (List ℕ)
skip_line ep node_id mask =
    target_text
    ∷ endpoint_text ep
    ∷ node_id_text
    ∷ decimal 4 node_id
    ∷ skip_text
    ∷ decimal 2 mask
    ∷ []

parse_skip_line :
    (ep : Endpoint) (node_id mask : ℕ)
    → node_id < 2 ^ 16
    → mask < 2 ^ 8
    → parse_ctl (skip_line ep node_id mask) ctl_defaults
      ≡ some (record {
        target = some (endpoint_text ep);
        node_id = node_id;
        mask = some mask;
        clear = false;
      })
unfolding parse_ctl
parse_skip_line ep node_id mask fits low =
    ap₂
      (λ n m.
        some (record { target = some (endpoint_text ep); node_id = n; mask = m; clear = false }))
      (atoi_u16-decimal 4 node_id (omega arith) fits) (atoi_int-decimal 2 mask (omega arith))

abbrev pub clear_line : Endpoint → ℕ → List (List ℕ)
clear_line ep node_id =
    clear_text ∷ node_id_text ∷ decimal 4 node_id ∷ target_text ∷ endpoint_text ep ∷ []

parse_clear_line :
    (ep : Endpoint) (node_id : ℕ)
    → node_id < 2 ^ 16
    → parse_ctl (clear_line ep node_id) ctl_defaults
      ≡ some (record {
        target = some (endpoint_text ep);
        node_id = node_id;
        mask = none;
        clear = true;
      })
unfolding parse_ctl
parse_clear_line ep node_id fits =
    ap
      (λ n.
        some (record { target = some (endpoint_text ep); node_id = n; mask = none; clear = true }))
      (atoi_u16-decimal 4 node_id (omega arith) fits)

-- The datagram goes to the endpoint, and sets the mask of the node's route.
abbrev pub Commands : Option (Endpoint × List ℕ) → Endpoint → ℕ → ℕ → Type 0
Commands none ep node_id mask = ⊥
Commands (some (to, bytes)) ep node_id mask =
    (to ≡ ep)
    × ((router : MeshRouter)
        → handle_control bytes router ≡ (set_hop_skip_mask router node_id mask).1)

Commands-message :
    (clear : Bool) (node_id mask : ℕ) (ep : Endpoint)
    → node_id < 2 ^ 16
    → Commands
        (some (ep, msg_bytes (ctl_message clear node_id mask)))
        ep
        node_id
        (if clear then 0 else mask % 256)
Commands-message clear node_id mask ep fits = (
  refl,
  λ router.
      ap (λ bytes. handle_control bytes router)
        (sym (append-nil (msg_bytes (ctl_message clear node_id mask))))
      ∙ handle_control-ctl_message clear node_id mask [] router fits,
)

-- Of an endpoint that can be written, a 16-bit node and an 8-bit mask, the command line of
-- zcmesh_ctl with --target, --node-id and --skip sends to the endpoint a datagram that makes
-- every edge set the mask on the node's route, and the one with --clear a datagram that sets 0.
pub ctl-skip_line :
    (ep : Endpoint) (node_id mask : ℕ)
    → 0 < length ep.host
    → length ep.host < 64
    → 0 < ep.port
    → ep.port < 2 ^ 16
    → node_id < 2 ^ 16
    → mask < 2 ^ 8
    → Commands (ctl (skip_line ep node_id mask)) ep node_id mask
      × Commands (ctl (clear_line ep node_id)) ep node_id 0
unfolding ctl
ctl-skip_line ep node_id mask some_host short some_port port fits low =
    let read = parse_endpoint-endpoint_text ep some_host short some_port port in
    let byte : mask % 256 ≡ mask = omega arith in
    (
      rw (parse_skip_line ep node_id mask fits low, read)
          (subst
            (λ m. Commands (some (ep, msg_bytes (ctl_message false node_id mask))) ep node_id m)
            byte (Commands-message false node_id mask ep fits)),
      rw (parse_clear_line ep node_id fits, read) (Commands-message true node_id 0 ep fits),
    )
