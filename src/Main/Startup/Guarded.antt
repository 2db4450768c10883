-- ===== src/Main/Startup/Guarded.antt =====
-- What guards the memories when main (cmd/mma2/main.go) opens the listeners.
use Prim.Native.String.{String}
use mathlib.Core.List.Memᴰ as MemD
use mathlib.Core.List.{Memᴰ}
use mma.Base.{
  ℕ, ◌≡◌, refl, sym, ◌∙◌, true, Option, none, some, List, [], ◌∷◌, All, ok, ok-injective, >>=-eq-ok,
  map_err, ap,
}
use mma.Golang.Text.{TextLibrary}
use mma.Golang.Netip.{Parser, Addr}
use mma.Memorycore.Memory.WellFormed.{IsNarrow}
use mma.Memorycore.Store.WellFormed.{IsSoundStore}
use mma.Memorycore.Store.{MemoryId, lookup, Store}
use mma.Authority.Decision.{Decision, deny}
use mma.Authority.Sealing.{is_sealed, new_sealing}
use mma.Authority.Evaluate.{Authority, new_authority, set_memory_policy, evaluate, evaluate_policy}
use mma.Modbus.Conn.{is_blocked}
use mma.Modbus.Conn.Sealed.{sealed_by-clear, is_blocked-deref}
use mma.Config.{
  MemoryPolicyConfig, build_memory_store, MemoryDefinition, IngressGate, StateSealingConfig,
  layout_of, parse_listen_port,
}
use mma.Config.Load.{FileLibrary, load}
use mma.Config.Validate.{validate_config}
use mma.Config.Validate.Accepted.{identity, sealing_def}
use mma.Config.Validate.Build.{Serves, GateServed}
use mma.Config.Policies.{Policies, build_authority_policies}
use mma.Config.Policies.Stated.{decide_policy, evaluate_policy-decide_policy}
use mma.Config.Policies.Nested.{PolicySet, Configured}
use mma.Config.Policies.Configured.{GateConfigured}
use mma.Main.Startup.{
  Server, start, set_policies, load_failed, validation_failed, memory_build_failed,
  policy_build_failed,
}
use mma.Main.Startup.Ready.{DecodesU16, start-IsReady}

All-member {ℓ κ} : {A : Type ℓ} (P : A → Type κ) (x : A) (xs : List A) → All P xs → Memᴰ x xs → P x
All-member P x [] h m = elim m [ ]
All-member P x (y ∷ xs) h (MemD.head e) = rw e h.0
All-member P x (y ∷ xs) h (MemD.tail m) = All-member P x xs h.1 m

module _ (parser : Parser) (lib : TextLibrary) (listen : String) (port : ℕ)
    (parsed : parse_listen_port lib listen ≡ ok port) where
  served_member :
      (s : Store) (defs : List MemoryDefinition) (def : MemoryDefinition)
      → GateServed lib s listen defs
      → Memᴰ def defs
      → Serves s port def
  served_member s [] def h m = elim m [ ]
  served_member s (d ∷ defs) def (n, e, h) m =
      let q : n ≡ port = ok-injective (sym e ∙ parsed) in
      All-member (Serves s port) def (d ∷ defs) (coe 0 1 (i. All (Serves s (q i)) (d ∷ defs)) h) m

  Configured-member :
      (out : Policies) (defs : List MemoryDefinition) (def : MemoryDefinition)
      → GateConfigured parser lib out listen defs
      → Memᴰ def defs
      → Configured parser out port def
  Configured-member out [] def h m = elim m [ ]
  Configured-member out (d ∷ defs) def (n, e, h) m =
      let q : n ≡ port = ok-injective (sym e ∙ parsed) in
      All-member (Configured parser out port) def (d ∷ defs)
        (coe 0 1 (i. All (Configured parser out (q i)) (d ∷ defs)) h) m

pub sealing-set_policies :
    (auth : Authority) (out : Policies) → (set_policies auth out).sealing ≡ auth.sealing
unfolding set_policies set_memory_policy
sealing-set_policies auth [] = refl
sealing-set_policies auth ((mid, p) ∷ out) = sealing-set_policies (set_memory_policy auth mid p) out

start-unsealed :
    (files : FileLibrary) (lib : TextLibrary) (parser : Parser) (args : List String)
    {server : Server}
    → start files lib parser args ≡ ok server
    → server.auth.sealing ≡ new_sealing
unfolding start
start-unsealed files lib parser [] h = cc h
start-unsealed files lib parser (name ∷ []) h = cc h
start-unsealed files lib parser (name ∷ path ∷ args) h =
    let (cfg, _, h1) = >>=-eq-ok (map_err load_failed (load files path)) _ h in
    let (_, _, h2) =
      >>=-eq-ok (map_err validation_failed (validate_config lib parser (some cfg))) _ h1 in
    let (store, _, h3) =
      >>=-eq-ok (map_err memory_build_failed (build_memory_store lib (some cfg))) _ h2 in
    let (out, _, h4) =
      >>=-eq-ok (map_err policy_build_failed (build_authority_policies lib parser (some cfg))) _
        h3 in
    rw (← ok-injective h4) (sealing-set_policies new_authority out)

-- The decision that the configured policy of a memory asks for.
abbrev pub Decided : Parser → Option MemoryPolicyConfig → Addr → ℕ → Decision → Type 0
Decided parser none src fc d = d ≡ deny 1 "no access rules (default deny)"
Decided parser (some pc) src fc d = d ≡ decide_policy parser pc.rules src fc

evaluate-Decided :
    (parser : Parser) (auth : Authority) (id : MemoryId) (policy : Option MemoryPolicyConfig)
    (src : Addr) (fc : ℕ)
    → auth.sealing ≡ new_sealing
    → PolicySet parser auth.policies id policy
    → Decided parser policy src fc
        (evaluate auth (record { memory_id = id; source_ip = src; function_code = fc }))
unfolding evaluate is_sealed lookup evaluate_policy
evaluate-Decided parser auth id none src fc e h = rw (e, h) refl
evaluate-Decided parser auth id (some pc) src fc e (rules, stated, h) =
    rw (e, h) (evaluate_policy-decide_policy parser pc.rules rules src fc stated)

module _ (files : FileLibrary) (lib : TextLibrary) (parser : Parser) (args : List String)
    (server : Server) (u16 : DecodesU16 files lib parser)
    (started : start files lib parser args ≡ ok server) (gate : IngressGate)
    (def : MemoryDefinition) (port : ℕ) (listening : Memᴰ gate server.gates)
    (defined : Memᴰ def gate.memory) (parsed : parse_listen_port lib gate.listen ≡ ok port) where
  -- When main reaches its listeners, and decoded areas have `uint16` fields, the authority decides a
  -- request for a memory that a listener defines by the policy that the definition states: without a
  -- policy, or an entry in it, it denies; otherwise the first entry whose sources cover the address
  -- allows it if its function codes have that of the request, and denies it if not; and it denies a
  -- request that no entry covers.
  pub start-Decided :
      (src : Addr) (fc : ℕ)
      → Decided parser def.policy src fc (
          evaluate server.auth
            (record { memory_id = identity port def; source_ip = src; function_code = fc }))
  start-Decided src fc =
      let (_, _, configured) = start-IsReady files lib parser args u16 started in
      let here = All-member _ gate server.gates configured listening in
      evaluate-Decided parser server.auth (identity port def) def.policy src fc
        (start-unsealed files lib parser args started)
        (Configured-member parser lib gate.listen port parsed server.auth.policies gate.memory def
          here defined)

  pub start-Serves : IsSoundStore server.store × Serves server.store port def
  start-Serves =
      let (w, served, _) = start-IsReady files lib parser args u16 started in
      let here = All-member _ gate server.gates served listening in
      (
        w,
        served_member parser lib gate.listen port parsed server.store gate.memory def here defined,
      )

  -- When main reaches its listeners, and decoded areas have `uint16` fields, a memory with state sealing
  -- and at most 65528 coils and 65528 discrete inputs blocks every Modbus request.
  pub start-is_blocked :
      (seal : StateSealingConfig)
      → def.state_sealing ≡ some seal
      → IsNarrow (layout_of def.coils)
      → IsNarrow (layout_of def.discrete_inputs)
      → is_blocked server.store (identity port def) ≡ true
  start-is_blocked seal e coils discrete =
      let (w, (p, m, g, d, fresh)) = start-Serves in
      let sealed : m.state_sealing ≡ some (record { area = 1; address = seal.address }) =
        fresh.sealing ∙ ap sealing_def e in
      is_blocked-deref server.store (identity port def) p m
        (record { area = 1; address = seal.address }) g d sealed
      ∙ sealed_by-clear m (record { area = 1; address = seal.address }) (w.formed p m d)
          (rw fresh.coils coils, rw fresh.discrete discrete) (fresh.clear 1 seal.address 0).0
