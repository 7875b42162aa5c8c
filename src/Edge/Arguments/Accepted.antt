-- ===== src/Edge/Arguments/Accepted.antt =====
-- The options that core-engine/src/main.cpp starts with, and its `--hop` options.
use zcmesh.Base.{
  ℕ, suc, ◌+◌, ◌^◌, ◌≤◌, ◌<◌, ◌≡◌, refl, ◌∙◌, ap₂, arith, leb, leb→lt, leb→le, true, false,
  Bool-cases, inl, inr, Option, none, some, List, [], ◌∷◌, ◌++◌, append_assoc, append-nil, All,
  length, length-append, if◌then◌else◌,
}
use zcmesh.Net.Api.{Endpoint}
use zcmesh.Net.Endpoints.{parse_endpoint, atoi_u16, signed_u16}
use zcmesh.Net.Endpoints.Printing.{endpoint_text, parse_endpoint-endpoint_text}
use zcmesh.Edge.Arguments.Flags.{
  ValueFlag, operator_value, node_id_value, rate_value, batch_value, transport_value,
  duration_value, drop_pct_value, stats_value, hop_value, control_value, skip_file_value,
  file_value, EdgeFlag, takes, stdin_flag, help_flag, unknown_flag, edge_flag, hop_text,
}
use zcmesh.Edge.Arguments.{
  EdgeOptions, edge_defaults, signed_u64, strtoull, transport_of, Parsed, go, exit, with_transport,
  apply_value, last_flag, Stepped, with_value, alone, stops, stepped, step_flag, parse_edge,
}

-- What the rest of the program relies on.
pub record IsOptions (o : EdgeOptions) : Type 0 where
  pub node_fits : o.node_id < 2 ^ 16
  pub batch_pos : 1 ≤ o.batch_size
  pub batch_fits : o.batch_size < 2 ^ 64
  pub hops_le : length o.hop_override ≤ 3

abbrev pub Accepted : Parsed → Type 0
Accepted (go o) = IsOptions o
Accepted (exit n) = n < 2

abbrev AcceptedStep : Stepped → Type 0
AcceptedStep (with_value o) = IsOptions o
AcceptedStep (alone o) = IsOptions o
AcceptedStep (stops n) = n < 2

signed_u16_fits : (cs : List ℕ) → signed_u16 cs < 2 ^ 16
signed_u16_fits [] = omega arith
signed_u16_fits (c ∷ cs) = ground arith

atoi_u16_fits : (cs : List ℕ) → atoi_u16 cs < 2 ^ 16
atoi_u16_fits [] = omega arith
atoi_u16_fits (c ∷ cs) = ground (arith, atoi_u16_fits cs, signed_u16_fits (c ∷ cs))

signed_u64_fits : (cs : List ℕ) → signed_u64 cs < 2 ^ 64
signed_u64_fits [] = omega arith
signed_u64_fits (c ∷ cs) = ground arith

strtoull_fits : (cs : List ℕ) → strtoull cs < 2 ^ 64
strtoull_fits [] = omega arith
strtoull_fits (c ∷ cs) = ground (arith, strtoull_fits cs, signed_u64_fits (c ∷ cs))

with_transport-Accepted :
    (o : EdgeOptions) (t : Option _) → IsOptions o → Accepted (with_transport o t)
with_transport-Accepted o none v = omega arith
with_transport-Accepted o (some t) v = record {
  node_fits = v.node_fits;
  batch_pos = v.batch_pos;
  batch_fits = v.batch_fits;
  hops_le = v.hops_le;
}

apply_value-Accepted :
    (f : ValueFlag) (v : List ℕ) (o : EdgeOptions) → IsOptions o → Accepted (apply_value f v o)
unfolding apply_value
apply_value-Accepted operator_value v o i = ground (arith, i)
apply_value-Accepted node_id_value v o i = ground (arith, i, atoi_u16_fits v)
apply_value-Accepted rate_value v o i = ground (arith, i)
apply_value-Accepted batch_value v o i = ground (arith, i, strtoull_fits v)
apply_value-Accepted transport_value v o i = with_transport-Accepted o (transport_of v) i
apply_value-Accepted duration_value v o i = ground (arith, i)
apply_value-Accepted drop_pct_value v o i = ground (arith, i)
apply_value-Accepted stats_value v o i = ground (arith, i)
apply_value-Accepted hop_value v o i = elim (Bool-cases (leb 3 (length o.hop_override))) [
  | inl full ↦ rw full (omega arith)
  | inr room ↦ elim (Bool-cases (parse_endpoint v).0) [
    | inr bad ↦ rw (room, bad) (omega arith)
    | inl good ↦
        rw (room, good)
          (record {
            node_fits = i.node_fits;
            batch_pos = i.batch_pos;
            batch_fits = i.batch_fits;
            hops_le = omega (
              arith,
              leb→lt 3 (length o.hop_override) room,
              length-append o.hop_override ((parse_endpoint v).1 ∷ []),
            );
          })
  ]
]
apply_value-Accepted control_value v o i = ground (arith, i)
apply_value-Accepted skip_file_value v o i = ground (arith, i)
apply_value-Accepted file_value v o i = ground (arith, i)

last_flag-Accepted : (f : EdgeFlag) (o : EdgeOptions) → IsOptions o → Accepted (last_flag f o)
unfolding last_flag
last_flag-Accepted (takes f) o i = omega arith
last_flag-Accepted stdin_flag o i = ground (arith, i)
last_flag-Accepted help_flag o i = omega arith
last_flag-Accepted unknown_flag o i = omega arith

stepped-Accepted : (p : Parsed) → Accepted p → AcceptedStep (stepped p)
stepped-Accepted (go o) a = a
stepped-Accepted (exit n) a = a

step_flag-Accepted :
    (f : EdgeFlag) (v : List ℕ) (o : EdgeOptions) → IsOptions o → AcceptedStep (step_flag f v o)
unfolding step_flag
step_flag-Accepted (takes f) v o i =
    stepped-Accepted (apply_value f v o) (apply_value-Accepted f v o i)
step_flag-Accepted stdin_flag v o i = ground (arith, i)
step_flag-Accepted help_flag v o i = omega arith
step_flag-Accepted unknown_flag v o i = omega arith

parse_edge-IsOptions :
    (args : List (List ℕ)) (o : EdgeOptions) → IsOptions o → Accepted (parse_edge args o)
unfolding parse_edge
parse_edge-IsOptions [] o i = i
parse_edge-IsOptions (a ∷ []) o i = last_flag-Accepted (edge_flag a) o i
parse_edge-IsOptions (a ∷ v ∷ rest) o i =
    by_step (step_flag (edge_flag a) v o) refl (step_flag-Accepted (edge_flag a) v o i)
      (λ o' i'. parse_edge-IsOptions rest o' i') (λ o' i'. parse_edge-IsOptions (v ∷ rest) o' i')
  where
    by_step :
        (s : Stepped)
        → step_flag (edge_flag a) v o ≡ s
        → AcceptedStep s
        → ((o' : EdgeOptions) → IsOptions o' → Accepted (parse_edge rest o'))
        → ((o' : EdgeOptions) → IsOptions o' → Accepted (parse_edge (v ∷ rest) o'))
        → Accepted (parse_edge (a ∷ v ∷ rest) o)
    by_step (with_value o') e i' later same = rw (e, parse_edge) (later o' i')
    by_step (alone o') e i' later same = rw (e, parse_edge) (same o' i')
    by_step (stops n) e i' later same = rw (e, parse_edge) i'

-- Whatever its command line, the edge ends with 0 or 1, or starts with a node id of 16 bits, a
-- batch size from 1 to 2^64 - 1 and at most three hops.
pub parse_edge-Accepted : (args : List (List ℕ)) → Accepted (parse_edge args edge_defaults)
parse_edge-Accepted args = parse_edge-IsOptions args edge_defaults (record {
  node_fits = omega arith;
  batch_pos = omega arith;
  batch_fits = omega arith;
  hops_le = omega arith;
})

-- An endpoint that can be written and read back.
abbrev pub IsEndpoint : Endpoint → Type 0
IsEndpoint ep = (0 < length ep.host) × (length ep.host < 64) × (0 < ep.port) × (ep.port < 2 ^ 16)

abbrev pub hop_line : List Endpoint → List (List ℕ)
hop_line [] = []
hop_line (ep ∷ eps) = hop_text ∷ endpoint_text ep ∷ hop_line eps

hop_full :
    (ep : Endpoint) (o : EdgeOptions)
    → leb 3 (length o.hop_override) ≡ true
    → step_flag (edge_flag hop_text) (endpoint_text ep) o ≡ stops 1
unfolding step_flag edge_flag apply_value
hop_full ep o full = rw full refl

hop_added :
    (ep : Endpoint) (o : EdgeOptions)
    → IsEndpoint ep
    → leb 3 (length o.hop_override) ≡ false
    → step_flag (edge_flag hop_text) (endpoint_text ep) o
      ≡ with_value (record o { hop_override = o.hop_override ++ ep ∷ [] })
unfolding step_flag edge_flag apply_value
hop_added ep o (some_host, short, some_port, fits) room =
    rw (room, parse_endpoint-endpoint_text ep some_host short some_port fits) refl

-- Of endpoints that can be written, behind at most three hops read before, a command line of
-- --hop options adds them all in order if they are at most three together with those, and else
-- ends the edge with 1.
pub parse_edge-hop_line :
    (eps : List Endpoint) (o : EdgeOptions)
    → All IsEndpoint eps
    → length o.hop_override ≤ 3
    → parse_edge (hop_line eps) o ≡ (
        if leb (length o.hop_override + length eps) 3
        then go (record o { hop_override = o.hop_override ++ eps })
        else exit 1)
unfolding parse_edge
parse_edge-hop_line [] o good le =
    let small : leb (length o.hop_override + 0) 3 ≡ true = ground arith in
    rw (small, append-nil) refl
parse_edge-hop_line (ep ∷ eps) o good le = elim (Bool-cases (leb 3 (length o.hop_override))) [
  | inl full ↦
      let over : leb (length o.hop_override + suc (length eps)) 3 ≡ false =
        ground (arith, leb→le _ _ full) in
      rw (hop_full ep o full, over, parse_edge) refl
  | inr room ↦
      let o' : EdgeOptions = record o { hop_override = o.hop_override ++ ep ∷ [] } in
      let longer : length o'.hop_override ≡ length o.hop_override + 1 =
        omega (arith, length-append o.hop_override (ep ∷ [])) in
      let ih = parse_edge-hop_line eps o' good.1 (omega (arith, longer, leb→lt _ _ room)) in
      rw (hop_added ep o good.0 room, parse_edge)
        (ih
          ∙ ap₂ (λ n hs. if leb n 3 then go (record o { hop_override = hs }) else exit 1)
              (omega (arith, longer)) (append_assoc o.hop_override (ep ∷ []) eps))
]
