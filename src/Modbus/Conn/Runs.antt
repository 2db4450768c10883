-- ===== src/Modbus/Conn/Runs.antt =====
-- HandleConn of internal/transport/modbus/handle_conn.go from the first byte to the last.
use mma.Base.{
  ℕ, zero, suc, ◌<◌, ◌≡◌, ◌≢◌, ◌⊎◌, inl, inr, refl, ◌∙◌, sym, ap, arith, true, false, Bool-cases,
  some, List, [], ◌∷◌, ◌++◌, length,
}
use mma.Memorycore.Store.{MemoryId, Store, Pointer, deref, get}
use mma.Memorycore.Store.WellFormed.{IsSoundStore}
use mma.Authority.Evaluate.{Authority}
use mma.Modbus.Wire.{Request, build_response}
use mma.Modbus.Wire.Framing.{read_request_cases}
use mma.Modbus.Dispatch.{request_id}
use mma.Modbus.Dispatch.Effects.{IsWriteCode}
use mma.Modbus.Conn.{
  next, done, Session, Peer, Answer, is_blocked, answer, serve_one, serve_loop, handle_conn,
}
use mma.Modbus.Conn.Guards.{
  decide, answer-Verdict, answer_guarded, answer-IsSoundStore, answer_isolates,
  answer_keeps_blocked,
}

-- A property of the store that every answer on this connection keeps.
module _ (auth : Authority) (peer : Peer) (P : Store → Type 0)
    (sound : (s : Store) → P s → IsSoundStore s)
    (keep : (s : Store) (req : Request) (a : Answer)
      → P s
      → req.port ≡ peer.port
      → answer auth peer.src_ip s req ≡ some a
      → P a.store) where
  serve_one_keeps :
      (c : Session)
      → P c.store
      → ((c' : Session) × (serve_one auth peer c ≡ next c')
          × (length c'.input < length c.input)
          × P c'.store)
        ⊎ ((c' : Session) × (serve_one auth peer c ≡ done c') × P c'.store)
  unfolding serve_one
  serve_one_keeps c h = elim (read_request_cases c.input peer.port) [
    | inl (e, q) ↦ inr (c, rw (q, serve_one) refl, h)
    | inr (req, rest, q, takes, port) ↦
        let (a, e, v) = answer-Verdict auth peer.src_ip c.store req (sound c.store h) in
        let held = keep c.store req a h port e in
        let c' : Session = record {
          store = a.store;
          input = rest;
          sent = c.sent ++ (build_response req a.pdu ∷ []);
        } in
        elim (Bool-cases a.must_send) [
          | inr free ↦ inl (c', rw (q, e, free, serve_one) refl, omega arith, held)
          | inl must ↦ elim (Bool-cases (peer.writable (length c.sent))) [
            | inl fine ↦ inl (c', rw (q, e, must, fine, serve_one) refl, omega arith, held)
            | inr broken ↦ inr (c', rw (q, e, must, broken, serve_one) refl, held)
          ]
        ]
  ]

  serve_loop_keeps :
      (fuel : ℕ) (c : Session)
      → length c.input < fuel
      → P c.store
      → (c' : Session) × (serve_loop fuel auth peer c ≡ done c') × P c'.store
  unfolding serve_loop
  serve_loop_keeps zero c less h = absurd (omega arith)
  serve_loop_keeps (suc fuel) c less h = elim (serve_one_keeps c h) [
    | inr (c', q, h') ↦ (c', rw (q, serve_loop) refl, h')
    | inl (c', q, shorter, h') ↦
        let (c'', r, h'') = serve_loop_keeps fuel c' (omega arith) h' in
        (c'', rw (q, serve_loop) r, h'')
  ]

  handle_conn_keeps :
      (s : Store) (input : List ℕ)
      → P s
      → (c' : Session) × (handle_conn auth peer s input ≡ done c') × P c'.store
  unfolding handle_conn
  handle_conn_keeps s input h =
      serve_loop_keeps (suc (length input)) (record { store = s; input = input; sent = [] })
        (omega arith) h

module _ (auth : Authority) (peer : Peer) (s : Store) (input : List ℕ) (w : IsSoundStore s) where
  -- On a sound store HandleConn ends on every input: no panic, and the fuel is enough. The store is
  -- sound at the end.
  pub handle_conn_total :
      (c' : Session) × (handle_conn auth peer s input ≡ done c') × IsSoundStore c'.store
  handle_conn_total =
      handle_conn_keeps auth peer IsSoundStore (λ t h. h)
        (λ t req a h _ e. answer-IsSoundStore auth peer.src_ip t req h a e) s input w

  -- On a sound store, a memory that state sealing blocks is still blocked when a Modbus connection ends,
  -- whatever its peer sent.
  pub handle_conn_keeps_blocked :
      (id : MemoryId)
      → is_blocked s id ≡ true
      → (c' : Session) × (handle_conn auth peer s input ≡ done c') × (is_blocked c'.store id ≡ true)
  handle_conn_keeps_blocked id blocked =
      let (c', e, (_, b)) =
        handle_conn_keeps auth peer (λ t. IsSoundStore t × (is_blocked t id ≡ true)) (λ t h. h.0)
          (λ t req a h _ e. (
            answer-IsSoundStore auth peer.src_ip t req h.0 a e,
            answer_keeps_blocked auth peer.src_ip t req h.0 a e id h.1,
          ))
          s input (w, blocked) in
      (c', e, b)

  -- On a sound store, a Modbus connection to one port ends with a memory registered under another port
  -- registered and as it was.
  pub handle_conn_isolates :
      (id : MemoryId) (p : Pointer)
      → id.port ≢ peer.port
      → get (some s) id ≡ some p
      → (c' : Session) × (handle_conn auth peer s input ≡ done c')
        × (get (some c'.store) id ≡ some p)
        × (deref c'.store p ≡ deref s p)
  handle_conn_isolates id p other here =
      let (c', e, (_, (g, d))) =
        handle_conn_keeps auth peer
          (λ t. IsSoundStore t × ((get (some t) id ≡ some p) × (deref t p ≡ deref s p)))
          (λ t h. h.0)
          (λ t req a (wt, (g, d)) port e.
            let apart : request_id req ≢ id =
              λ q. other (sym (ap (λ (j : MemoryId). j.port) q) ∙ port) in
            let (found, same) = answer_isolates auth peer.src_ip t req wt a e id apart in
            (answer-IsSoundStore auth peer.src_ip t req wt a e, (found ∙ g, same p g ∙ d)))
          s input (w, (here, refl)) in
      (c', e, g, d)

  -- On a sound store, a peer whose address the authority allows no write from on this port leaves the
  -- store as it was.
  pub handle_conn_read_only :
      ((req : Request)
        → req.port ≡ peer.port
        → IsWriteCode req.function_code
        → (decide auth peer.src_ip req).allowed ≡ false)
      → (c' : Session) × (handle_conn auth peer s input ≡ done c') × (c'.store ≡ s)
  handle_conn_read_only denied =
      let (c', e, (_, q)) =
        handle_conn_keeps auth peer (λ t. IsSoundStore t × (t ≡ s)) (λ t h. h.0)
          (λ t req a (wt, q) port e. (
            answer-IsSoundStore auth peer.src_ip t req wt a e,
            same t req a port q (answer_guarded auth peer.src_ip t req wt a e),
          ))
          s input (w, refl) in
      (c', e, q)
    where
      same :
          (t : Store) (req : Request) (a : Answer)
          → req.port ≡ peer.port
          → t ≡ s
          → ((a.store ≡ t)
              ⊎ ((is_blocked t (request_id req) ≡ false)
                  × ((decide auth peer.src_ip req).allowed ≡ true)
                  × IsWriteCode req.function_code))
          → a.store ≡ s
      same t req a port q (inl e) = e ∙ q
      same t req a port q (inr (_, allowed, code)) = cc (allowed, denied req port code)
