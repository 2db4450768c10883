-- ===== src/Config/Policies/Configured.antt =====
-- The policies that BuildAuthorityPolicies (internal/config/build_authority_policies.go) makes, on
-- definitions with different identities.
use Prim.Native.String.{String}
use mma.Base.{
  ℕ, ◌≡◌, refl, sym, ap, ◌∙◌, true, some, List, [], ◌∷◌, All, All-map, Outcome, ok, err, panic,
  >>=-eq-ok, ok-injective,
}
use mma.Golang.Text.{TextLibrary}
use mma.Golang.Netip.{Parser}
use mma.Golang.Sets.Fresh.{IsFresh, put_all, has_key-put_all, IsFresh-split, put_all-append}
use mma.Memorycore.Store.{MemoryId, same_id, lookup}
use mma.Config.{MemoryDefinition, IngressGate, Config, ConfigError, parse_listen_port}
use mma.Config.Validate.{
  has_identity, validate_ingress, validate_legacy, validate_all_memories, validate_config,
}
use mma.Config.Validate.Distinct.{nested_ids, port_ids, gate_ids, validate_gates-IsFresh}
use mma.Config.Policies.{
  Policies, gate_policies, gates_policies, build_authority_policies, legacy_policies,
}
use mma.Config.Policies.Nested.{Bound, SameOn, Configured, Held, Held-SameOn, nested_policies-Held}

port_ids_nil : (o : Outcome ConfigError ℕ) → port_ids o [] ≡ []
port_ids_nil (ok port) = refl
port_ids_nil (err e) = refl
port_ids_nil panic = refl

module _ (parser : Parser) where
  -- The definitions of a listener, and of all, have the policies of the configuration.
  module _ (lib : TextLibrary) where
    abbrev GateHeld : Policies → List MemoryId → String → List MemoryDefinition → Type 0
    GateHeld out seen listen [] = Unit {0}
    GateHeld out seen listen (def ∷ defs) =
        (port : ℕ) × (parse_listen_port lib listen ≡ ok port)
        × All (Held parser out seen port) (def ∷ defs)

    abbrev GatesHeld : Policies → List MemoryId → List IngressGate → Type 0
    GatesHeld out seen gates =
        All (λ (gate : IngressGate). GateHeld out seen gate.listen gate.memory) gates

    abbrev pub GateConfigured : Policies → String → List MemoryDefinition → Type 0
    GateConfigured out listen [] = Unit {0}
    GateConfigured out listen (def ∷ defs) =
        (port : ℕ) × (parse_listen_port lib listen ≡ ok port)
        × All (Configured parser out port) (def ∷ defs)

    abbrev pub GatesConfigured : Policies → List IngressGate → Type 0
    GatesConfigured out gates =
        All (λ (gate : IngressGate). GateConfigured out gate.listen gate.memory) gates

    gate_policies-Held :
        (out : Policies) (listen : String) (defs : List MemoryDefinition) (seen : List MemoryId)
        {out' : Policies}
        → gate_policies lib parser out listen defs ≡ ok out'
        → IsFresh same_id seen (port_ids (parse_listen_port lib listen) defs)
        → Bound out seen
        → GateHeld out'
            (put_all same_id seen (port_ids (parse_listen_port lib listen) defs))
            listen
            defs
          × Bound out' (put_all same_id seen (port_ids (parse_listen_port lib listen) defs))
          × SameOn seen out out'
    gate_policies-Held out listen [] seen h fresh bound =
        let q = ok-injective (sym h) in
        rw (q, port_ids_nil (parse_listen_port lib listen)) (tt, bound, λ k e. refl)
    gate_policies-Held out listen (def ∷ defs) seen {out'} h fresh bound =
        let (port, e, h1) = >>=-eq-ok (parse_listen_port lib listen) _ h in
        let (held, bound', same) =
          nested_policies-Held parser port out (def ∷ defs) seen h1 (rw e at fresh) bound in
        let q : nested_ids port (def ∷ defs)
            ≡ port_ids (parse_listen_port lib listen) (def ∷ defs) =
          ap (λ o. port_ids o (def ∷ defs)) (sym e) in
        (
          (
            port,
            e,
            coe 0 1 (i. All (Held parser out' (put_all same_id seen (q i)) port) (def ∷ defs)) held,
          ),
          coe 0 1 (i. Bound out' (put_all same_id seen (q i))) bound',
          same,
        )

    GateHeld-SameOn :
        (out out' : Policies) (seen seen' : List MemoryId) (listen : String)
        (defs : List MemoryDefinition)
        → SameOn seen out out'
        → ((k : MemoryId) → has_identity seen k ≡ true → has_identity seen' k ≡ true)
        → GateHeld out seen listen defs
        → GateHeld out' seen' listen defs
    GateHeld-SameOn out out' seen seen' listen [] same grows h = tt
    GateHeld-SameOn out out' seen seen' listen (def ∷ defs) same grows (port, e, h) = (
      port,
      e,
      All-map (Held parser out seen port) (Held parser out' seen' port) (def ∷ defs)
          (Held-SameOn parser out out' seen seen' same grows port) h,
    )

    gates_policies-Held :
        (out : Policies) (gates : List IngressGate) (seen : List MemoryId) {out' : Policies}
        → gates_policies lib parser out gates ≡ ok out'
        → IsFresh same_id seen (gate_ids lib gates)
        → Bound out seen
        → GatesHeld out' (put_all same_id seen (gate_ids lib gates)) gates × SameOn seen out out'
    unfolding gates_policies
    gates_policies-Held out [] seen h fresh bound =
        let q = ok-injective (sym h) in rw q (tt, λ k e. refl)
    gates_policies-Held out (gate ∷ gates) seen {out'} h fresh bound =
        let ids = port_ids (parse_listen_port lib gate.listen) gate.memory in
        let (mine, others) = IsFresh-split same_id seen ids (gate_ids lib gates) fresh in
        let (out1, e, h1) = >>=-eq-ok (gate_policies lib parser out gate.listen gate.memory) _ h in
        let (held, bound1, same1) =
          gate_policies-Held out gate.listen gate.memory seen e mine bound in
        let (rest, same2) =
          gates_policies-Held out1 gates (put_all same_id seen ids) h1 others bound1 in
        let q = sym (put_all-append same_id seen ids (gate_ids lib gates)) in
        let mine : GateHeld out' (put_all same_id (put_all same_id seen ids) (gate_ids lib gates))
            gate.listen gate.memory =
          GateHeld-SameOn out1 out' _ _ gate.listen gate.memory same2
            (has_key-put_all same_id (put_all same_id seen ids) (gate_ids lib gates)) held in
        (
          coe 0 1 (i. GatesHeld out' (q i) (gate ∷ gates)) (mine, rest),
          λ k there. same2 k (has_key-put_all same_id seen ids k there) ∙ same1 k there,
        )

    GateHeld-GateConfigured :
        (out : Policies) (seen : List MemoryId) (listen : String) (defs : List MemoryDefinition)
        → GateHeld out seen listen defs
        → GateConfigured out listen defs
    GateHeld-GateConfigured out seen listen [] h = tt
    GateHeld-GateConfigured out seen listen (def ∷ defs) (port, e, h) = (
      port,
      e,
      All-map (Held parser out seen port) (Configured parser out port) (def ∷ defs) (λ d h. h.0) h,
    )

    -- When Validate accepts a configuration without legacy memories and BuildAuthorityPolicies ends
    -- well on it, every memory definition of a listener has, under the listener's port and the
    -- definition's unit id, what the definition states: a rule for each entry, in their order, or no
    -- policy at all.
    pub build_authority_policies-GatesConfigured :
        (cfg : Config) {out : Policies}
        → validate_config lib parser (some cfg) ≡ ok tt
        → cfg.memories ≡ []
        → build_authority_policies lib parser (some cfg) ≡ ok out
        → GatesConfigured out cfg.ingress
    unfolding validate_config validate_all_memories validate_legacy build_authority_policies
        legacy_policies lookup
    build_authority_policies-GatesConfigured cfg {out} h no_legacy built =
        let (_, _, h1) = >>=-eq-ok (validate_ingress lib [] cfg.ingress) _ h in
        let (seen, e1, _) = >>=-eq-ok (validate_all_memories lib parser cfg) _ h1 in
        let (old, e2, e3) = >>=-eq-ok (validate_legacy lib parser [] cfg.memories) _ e1 in
        let q : [] ≡ old = ok-injective (rw no_legacy at e2) in
        let fresh : IsFresh same_id [] (gate_ids lib cfg.ingress) =
          rw (← q) at (validate_gates-IsFresh lib parser old cfg.ingress e3) in
        let (held, _) =
          gates_policies-Held [] cfg.ingress [] (rw no_legacy at built) fresh (λ k e. refl) in
        All-map _ (λ (gate : IngressGate). GateConfigured out gate.listen gate.memory) cfg.ingress
          (λ gate. GateHeld-GateConfigured out _ gate.listen gate.memory) held
