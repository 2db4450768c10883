-- ===== src/Modbus/Spec/Converses.antt =====
-- HandleConn of internal/transport/modbus/handle_conn.go keeps its promise to the client.
use mma.Base.{
  ℕ, zero, suc, ◌+◌, ◌<◌, ◌≡◌, inl, inr, refl, sym, ◌∙◌, arith, Bool, true, Bool-cases, some,
  Option-cases, List, [], ◌∷◌, ◌++◌, length, length-append, append_nil, append_snoc, All, Outcome,
  ok, err, panic,
}
use mma.Words.{IsByte}
use mma.Golang.Netip.{Addr}
use mma.Memorycore.Bits.Loops.{bit_at}
use mma.Memorycore.Errors.{MemoryError}
use mma.Memorycore.Memory.{Memory, StateSealingDef, read_bits}
use mma.Memorycore.Memory.WellFormed.{IsWellFormed, HasNarrowBits, bit_value}
use mma.Memorycore.Memory.Acceptance.{read_bits-accepts, bits_never_panic}
use mma.Memorycore.Memory.BitReads.{read_bits-parts, read_bits-IsByte}
use mma.Memorycore.Store.{MemoryId, Store, get}
use mma.Memorycore.Store.WellFormed.{IsSoundStore, IsNarrowStore, deref-reaches}
use mma.Authority.Evaluate.{Authority}
use mma.Modbus.Wire.{Request, build_response}
use mma.Modbus.Wire.Framing.{read_request_cases, read_request-IsByte}
use mma.Modbus.Dispatch.{request_id}
use mma.Modbus.Conn.{
  done, Session, Peer, Answer, sealed_by, is_blocked, answer, serve_one, serve_loop, handle_conn,
}
use mma.Modbus.Conn.Guards.{decide, refusal, answer-IsSoundStore, answer-IsNarrowStore}
use mma.Modbus.Conn.Sealed.{flag-bit_at, is_blocked-deref}
use mma.Memorycore.Units.{holds}
use mma.Memorycore.Units.Views.{units, unit_of, holds-BitsCover}
use mma.Modbus.Spec.Refines.{one_byte, dispatch_memory-Obeys}
use mma.Modbus.Spec.Conversation.{is_unset, is_sealed, IsServed, Converses, ended, answered, cut}

-- The sealing test of the code, and the bit of the unit.
module _ (m : Memory) (def : StateSealingDef) (w : IsWellFormed m) (narrow : HasNarrowBits m) where
  first : def.address + 0 ≡ def.address
  first = omega arith

  zeros : All IsByte (0 ∷ [])
  zeros = (omega arith, tt)

  one_holds :
      (on : Bool)
      → bit_value m def.area def.address ≡ some on
      → holds (bit_value m def.area) def.address 1 ≡ true
  unfolding holds
  one_holds on e = rw (e, holds) refl

  read_flag :
      (o : Outcome MemoryError (List ℕ))
      → read_bits (some m) def.area def.address 1 (0 ∷ []) ≡ o
      → sealed_by (some m) (some def) ≡ is_unset (bit_value m def.area def.address)
  unfolding sealed_by
  read_flag (ok buf) e =
      let (inside, _, _) = read_bits-parts m def.area def.address 1 (0 ∷ []) w narrow zeros e 0 in
      let value : some (bit_at buf 0) ≡ bit_value m def.area def.address =
        rw first at (inside (omega arith)) in
      rw (e, sealed_by, ← value)
        (flag-bit_at buf (read_bits-IsByte m def.area def.address 1 (0 ∷ []) zeros e))
  read_flag (err x) e = elim (Option-cases (bit_value m def.area def.address)) [
    | inl clear ↦ rw (e, sealed_by, clear) refl
    | inr (on, set) ↦
        let (buf, h) =
          read_bits-accepts m def.area def.address 1 (0 ∷ [])
            (holds-BitsCover m def.area def.address 1 (omega arith) (one_holds on set))
            (omega (arith, one_byte)) in
        absurd (cc (e, h))
  ]
  read_flag panic e = absurd ((bits_never_panic m def.area def.address 1 (0 ∷ [])).1 e)

pub is_blocked-is_sealed :
    (s : Store) (id : MemoryId)
    → IsSoundStore s
    → IsNarrowStore s
    → is_blocked s id ≡ is_sealed (units s id)
unfolding is_blocked
is_blocked-is_sealed s id w n = elim (Option-cases (get (some s) id)) [
  | inl e ↦ rw (e, is_blocked) refl
  | inr (p, e) ↦
      let (m, d) = deref-reaches s p (w.reaches id p e) in
      elim (Option-cases m.state_sealing) [
        | inl open_ ↦ rw (e, is_blocked, d, unit_of, open_) refl
        | inr (def, sealed) ↦
            is_blocked-deref s id p m def e d sealed
            ∙ read_flag m def (w.formed p m d) (n.narrow p m d) _ refl
            ∙ rw (e, unit_of, d, sealed) refl
      ]
]

module _ (auth : Authority) (src : Addr) (s : Store) (req : Request) (w : IsSoundStore s)
    (n : IsNarrowStore s) where
  -- One request is answered as the contract says.
  answer-IsServed :
      All IsByte req.payload
      → (a : Answer) × (answer auth src s req ≡ some a)
        × IsServed auth src (units s) req a.pdu (units a.store) a.must_send
  unfolding answer
  answer-IsServed bytes =
      let same = is_blocked-is_sealed s (request_id req) w n in
      elim (Bool-cases (is_sealed (units s (request_id req)))) [
        | inl sealed ↦
            (refusal auth src s req 0x06, rw (same, sealed) refl, rw sealed ((refl, refl), refl))
        | inr open_ ↦ elim (Bool-cases (decide auth src req).allowed) [
          | inr denied ↦ (
            refusal auth src s req (decide auth src req).exception_code,
            rw (same, open_, denied) refl,
            rw (open_, denied) ((refl, refl), refl),
          )
          | inl allowed ↦
              let (pdu, s', e, obeys) = dispatch_memory-Obeys s req w n bytes in
              (
                record { pdu = pdu; store = s'; must_send = true },
                rw (same, open_, allowed, e) refl,
                rw (open_, allowed) (obeys, refl),
              )
        ]
      ]

-- What one round of the loop, and the whole loop, do for the client.
module _ (auth : Authority) (peer : Peer) where
  record IsReady (c : Session) : Type 0 where
    sound : IsSoundStore c.store
    narrow : IsNarrowStore c.store
    bytes : All IsByte c.input

  serve_loop-Converses :
      (fuel : ℕ) (c : Session)
      → length c.input < fuel
      → IsReady c
      → (c' : Session) × (frames : List (List ℕ)) × (serve_loop fuel auth peer c ≡ done c')
        × (c'.sent ≡ c.sent ++ frames)
        × Converses auth peer (length c.sent) (units c.store) c.input frames (units c'.store)
  unfolding serve_loop serve_one
  serve_loop-Converses zero c less h = absurd (omega arith)
  serve_loop-Converses (suc fuel) c less h = elim (read_request_cases c.input peer.port) [
    | inl (e, q) ↦
        (c, [], rw (q, serve_one, serve_loop) refl, sym (append_nil c.sent), ended _ _ _ e q)
    | inr (req, rest, q, takes, port) ↦
        let (unit, code, payload, tail) = read_request-IsByte c.input peer.port h.bytes q in
        let (a, e, served) =
          answer-IsServed auth peer.src_ip c.store req h.sound h.narrow payload in
        let frame = build_response req a.pdu in
        let c1 : Session = record {
          store = a.store;
          input = rest;
          sent = c.sent ++ (frame ∷ []);
        } in
        let ready : IsReady c1 = record {
          sound = answer-IsSoundStore auth peer.src_ip c.store req h.sound a e;
          narrow = answer-IsNarrowStore auth peer.src_ip c.store req h.sound a e h.narrow;
          bytes = tail;
        } in
        let (c2, frames, r, sent, talk) = serve_loop-Converses fuel c1 (omega arith) ready in
        let later : c2.sent ≡ c.sent ++ (frame ∷ frames) = sent ∙ append_snoc c.sent frames frame in
        let count : length (c.sent ++ (frame ∷ [])) ≡ length c.sent + 1 =
          length-append c.sent (frame ∷ []) in
        let talk' = rw count at talk in
        elim (Bool-cases a.must_send) [
          | inr free ↦ (
            c2,
            frame ∷ frames,
            rw (q, e, free, serve_one, serve_loop) r,
            later,
            answered _ _ _ req rest a.pdu _ a.must_send frames _ q served (rw free refl) talk',
          )
          | inl must ↦ elim (Bool-cases (peer.writable (length c.sent))) [
            | inl fine ↦ (
              c2,
              frame ∷ frames,
              rw (q, e, must, fine, serve_one, serve_loop) r,
              later,
              answered _ _ _ req rest a.pdu _ a.must_send frames _ q served (rw (must, fine) refl)
                  talk',
            )
            | inr broken ↦ (
              c1,
              frame ∷ [],
              rw (q, e, must, broken, serve_one, serve_loop) refl,
              refl,
              cut _ _ _ req rest a.pdu _ q (rw must at served) broken,
            )
          ]
        ]
  ]

  -- HandleConn on a sound store whose bit areas have at most 65528 bits, for a peer that sends bytes:
  -- it ends, and the frames that it hands to the connection and the units at its end are those that the
  -- contract of a conversation gives.
  pub handle_conn-Converses :
      (s : Store) (input : List ℕ)
      → IsSoundStore s
      → IsNarrowStore s
      → All IsByte input
      → (c : Session) × (handle_conn auth peer s input ≡ done c)
        × Converses auth peer 0 (units s) input c.sent (units c.store)
  unfolding handle_conn
  handle_conn-Converses s input w n bytes =
      let (c, frames, e, sent, talk) =
        serve_loop-Converses (suc (length input)) (record { store = s; input = input; sent = [] })
          (omega arith) (record { sound = w; narrow = n; bytes = bytes }) in
      (c, e, rw sent talk)
