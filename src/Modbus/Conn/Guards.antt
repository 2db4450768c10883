-- ===== src/Modbus/Conn/Guards.antt =====
-- What one request can do, by the checks of the loop in handle_conn.go: sealing, then authority, then
-- the dispatch.
use mma.Base.{
  ℕ, ◌≡◌, ◌≢◌, ◌⊎◌, inl, inr, refl, ◌∙◌, ap, arith, true, false, Bool-cases, Option, none, some,
  List, Outcome, ok, err, panic,
}
use mathlib.Core.Path.{subst}
use mma.Golang.Netip.{Addr}
use mma.Memorycore.Errors.{MemoryError}
use mma.Memorycore.Store.{MemoryId, Store, Pointer, same_id, deref, get}
use mma.Memorycore.Store.Laws.{same_id_refl, same_id→eq}
use mma.Memorycore.Store.WellFormed.{
  IsSoundStore, IsNarrowStore, get-update, deref-update_ne, update-IsSoundStore,
  update-IsNarrowStore,
}
use mma.Authority.Decision.{Decision}
use mma.Authority.Evaluate.{Authority, evaluate}
use mma.Modbus.Wire.{Request}
use mma.Modbus.Encode.{build_exception_pdu}
use mma.Modbus.Dispatch.{request_id, dispatch_memory}
use mma.Modbus.Dispatch.Effects.{Effect, kept, wrote, Ends, IsWriteCode, dispatch_memory-Ends}
use mma.Modbus.Conn.{Answer, is_blocked, answer}

-- Whether a memory is blocked depends on its registration and its contents.
is_blocked-congr :
    (s s' : Store) (id : MemoryId)
    → get (some s') id ≡ get (some s) id
    → ((p : Pointer) → get (some s) id ≡ some p → deref s' p ≡ deref s p)
    → is_blocked s' id ≡ is_blocked s id
unfolding is_blocked
is_blocked-congr s s' id found same = go (get (some s) id) refl
  where
    go : (o : Option Pointer) → get (some s) id ≡ o → is_blocked s' id ≡ is_blocked s id
    go none e = ground arith
    go (some p) e = ground (arith, same p e)

-- The access decision on a request.
abbrev pub decide : Authority → Addr → Request → Decision
decide auth src req =
    evaluate auth
      (record { memory_id = request_id req; source_ip = src; function_code = req.function_code })

module _ (auth : Authority) (src : Addr) (s : Store) (req : Request) where
  -- An answer refuses the request and keeps the store, or is the dispatch's, after both checks.
  pub data Verdict (a : Answer) : Type 0 where
    refused : a.store ≡ s → Verdict a
    dispatched :
        is_blocked s (request_id req) ≡ false
        → (decide auth src req).allowed ≡ true
        → Effect s req a.pdu a.store
        → Verdict a

  abbrev pub refusal : ℕ → Answer
  refusal code = record {
    pdu = build_exception_pdu req.function_code code;
    store = s;
    must_send = false;
  }

  pub answer-Verdict : IsSoundStore s → (a : Answer) × (answer auth src s req ≡ some a) × Verdict a
  unfolding answer
  answer-Verdict w = elim (Bool-cases (is_blocked s (request_id req))) [
    | inl blocked ↦ (refusal 0x06, rw blocked refl, refused refl)
    | inr open_ ↦ elim (Bool-cases (decide auth src req).allowed) [
      | inr denied ↦
          (refusal (decide auth src req).exception_code, rw (open_, denied) refl, refused refl)
      | inl allowed ↦ run open_ allowed (dispatch_memory s req) refl (dispatch_memory-Ends s req w)
    ]
  ]
    where
      run :
          is_blocked s (request_id req) ≡ false
          → (decide auth src req).allowed ≡ true
          → (o : Outcome MemoryError (List ℕ × Store)) → dispatch_memory s req ≡ o
          → Ends s req o
          → (a : Answer) × (answer auth src s req ≡ some a) × Verdict a
      run open_ allowed (ok (pdu, s')) e effect = (
        record { pdu = pdu; store = s'; must_send = true },
        rw (open_, allowed, e) refl,
        dispatched open_ allowed effect,
      )
      run open_ allowed (err x) e effect = absurd effect
      run open_ allowed panic e effect = absurd effect

  module _ (w : IsSoundStore s) (a : Answer) (h : answer auth src s req ≡ some a) where
    verdict : Verdict a
    verdict =
        let (b, e, v) = answer-Verdict w in let same : b ≡ a = cc (e, h) in subst Verdict same v

    -- On a sound store, a request changes the store only if its memory is not blocked by state sealing,
    -- the authority allows it, and its function code is one that writes.
    pub answer_guarded :
        (a.store ≡ s)
        ⊎ ((is_blocked s (request_id req) ≡ false)
            × ((decide auth src req).allowed ≡ true)
            × IsWriteCode req.function_code)
    answer_guarded = guarded verdict
      where
        guarded :
            Verdict a
            → (a.store ≡ s)
              ⊎ ((is_blocked s (request_id req) ≡ false)
                  × ((decide auth src req).allowed ≡ true)
                  × IsWriteCode req.function_code)
        guarded (refused e) = inl e
        guarded (dispatched open_ allowed (kept e)) = inl e
        guarded (dispatched open_ allowed (wrote p m m' g d wm like q echo code)) =
            inr (open_, allowed, code)

    pub answer-IsSoundStore : IsSoundStore a.store
    answer-IsSoundStore = sound verdict
      where
        sound : Verdict a → IsSoundStore a.store
        sound (refused e) = rw e w
        sound (dispatched _ _ (kept e)) = rw e w
        sound (dispatched _ _ (wrote p m m' g d wm like q echo code)) =
            rw q (update-IsSoundStore s p m' w wm)

    pub answer-IsNarrowStore : IsNarrowStore s → IsNarrowStore a.store
    answer-IsNarrowStore n = narrow verdict
      where
        narrow : Verdict a → IsNarrowStore a.store
        narrow (refused e) = rw e n
        narrow (dispatched _ _ (kept e)) = rw e n
        narrow (dispatched _ _ (wrote p m m' g d wm like q echo code)) =
            rw q (update-IsNarrowStore s p m' m d like n)

    -- A memory other than the one that the request names is as it was, under its identifier too.
    pub answer_isolates :
        (id : MemoryId)
        → request_id req ≢ id
        → (get (some a.store) id ≡ get (some s) id)
          × ((p : Pointer) → get (some s) id ≡ some p → deref a.store p ≡ deref s p)
    answer_isolates id other = isolated verdict
      where
        isolated :
            Verdict a
            → (get (some a.store) id ≡ get (some s) id)
              × ((p : Pointer) → get (some s) id ≡ some p → deref a.store p ≡ deref s p)
        isolated (refused e) = rw e (refl, λ p _. refl)
        isolated (dispatched _ _ (kept e)) = rw e (refl, λ p _. refl)
        isolated (dispatched _ _ (wrote p m m' g d wm like q echo code)) = rw q (
          get-update s p m' id,
          λ p' g'.
              deref-update_ne s p m' p'
                (λ e. other (w.unshared (request_id req) id p g (rw (← e) at g'))),
        )

    -- No request unblocks a memory: a memory that state sealing blocks stays blocked.
    pub answer_keeps_blocked :
        (id : MemoryId) → is_blocked s id ≡ true → is_blocked a.store id ≡ true
    answer_keeps_blocked id blocked = elim (Bool-cases (same_id (request_id req) id)) [
      | inl e ↦ own (same_id→eq (request_id req) id e) verdict
      | inr e ↦
          let other : request_id req ≢ id =
            λ q. cc (e, same_id_refl id, ap (λ (j : MemoryId). same_id j id) q) in
          let (found, same) = answer_isolates id other in
          is_blocked-congr s a.store id found same ∙ blocked
    ]
      where
        own : request_id req ≡ id → Verdict a → is_blocked a.store id ≡ true
        own q (refused e) = rw e blocked
        own q (dispatched open_ _ _) = cc (q, open_, blocked)
