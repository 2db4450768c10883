-- ===== src/Raw/Loop/Runs.antt =====
-- Run (internal/transport/raw/ingest_loop.go) from the first frame to the last.
use mathlib.Core.Path.{subst}
use mma.Base.{
  ◌+◌, ◌∙◌, inl, inr, Bool-cases, Option-cases, length-append, append_snoc, ℕ, zero, suc, ◌<◌, ◌≡◌,
  refl, arith, Bool, ◌==◌, if-intro, some, List, [], ◌∷◌, ◌++◌, length, All, Outcome, ok, err,
  panic,
}
use mma.Words.{IsByte}
use mma.Raw.Frame.{RawError, rejected, write_failed, RawFrame, read_frame}
use mma.Raw.Frame.Bounds.{read_frame-IsFrameOf, left-IsByte}
use mma.Raw.Align.{align_bits, align_regs}
use mma.Raw.Loop.{
  RawWritableMemory, MemoryResolver, RawSession, Round, done, with_values, apply_frame, reply,
  run_one, run_loop, run, status_ok, status_error,
}
use mma.Raw.Loop.Spec.{Replies, unread, unknown, refused, answered, cut}
use mma.Raw.Loop.Clean.{Clean, read_frame-Clean, align_bits_loop-Clean, align_regs-Clean}

module _ {W : Type 0} (P : W → Type 0) where
  -- A write that ends, with or without an error, in a state of which `P` holds.
  abbrev pub Kept : Outcome W W → Type 0
  Kept (ok w) = P w
  Kept (err w) = P w
  Kept panic = ⊥

  -- What the memories promise: their writes never panic, and keep the invariant `P`.
  pub record Keeps (mem : RawWritableMemory W) : Type 0 where
    pub coils :
        (address : ℕ) (values : List Bool) (w : W) → P w → Kept (mem.write_coils address values w)
    pub discrete :
        (address : ℕ) (values : List Bool) (w : W)
        → P w
        → Kept (mem.write_discrete_inputs address values w)
    pub holding :
        (address : ℕ) (values : List ℕ) (w : W)
        → P w
        → Kept (mem.write_holding_registers address values w)
    pub input :
        (address : ℕ) (values : List ℕ) (w : W)
        → P w
        → Kept (mem.write_input_registers address values w)

  abbrev pub KeepsAll : MemoryResolver W → Type 0
  KeepsAll resolver =
      (id : ℕ) (mem : RawWritableMemory W) → resolver.resolve_memory_by_id id ≡ some mem → Keeps mem

  with_values-Kept {ℓ} :
      {A : Type ℓ} (o : Outcome RawError A) (write : A → W → Outcome W W) (w : W)
      → Clean o
      → P w
      → ((values : A) → Kept (write values w))
      → Kept (with_values o write w)
  with_values-Kept (ok values) write w c p h = h values
  with_values-Kept (err e) write w c p h = p
  with_values-Kept panic write w c p h = c

  apply_frame-Kept :
      (mem : RawWritableMemory W) (f : RawFrame) (w : W)
      → Keeps mem
      → P w
      → Kept (apply_frame mem f w)
  unfolding apply_frame
  apply_frame-Kept mem f w good p =
      let address = f.header.address in
      let count = f.header.count in
      if-intro Kept (f.header.area == 0x01)
        (with_values-Kept (align_bits f.payload count) (mem.write_coils address) w
          (align_bits_loop-Clean count 0 f.payload) p (λ values. good.coils address values w p))
        (if-intro Kept (f.header.area == 0x02)
          (with_values-Kept (align_bits f.payload count) (mem.write_discrete_inputs address) w
            (align_bits_loop-Clean count 0 f.payload) p
            (λ values. good.discrete address values w p))
          (if-intro Kept (f.header.area == 0x03)
            (with_values-Kept (align_regs f.payload count) (mem.write_holding_registers address) w
              (align_regs-Clean f.payload count) p (λ values. good.holding address values w p))
            (if-intro Kept (f.header.area == 0x04)
              (with_values-Kept (align_regs f.payload count) (mem.write_input_registers address) w
                (align_regs-Clean f.payload count) p (λ values. good.input address values w p))
              p)))

  -- What the loop carries along.
  Held : RawSession W → Type 0
  Held c = P c.world × All IsByte c.input

  module _ (resolver : MemoryResolver W) (max : ℕ) (writable : ℕ → Bool) where
    Answers : ℕ → RawSession W → Type 0
    Answers fuel c =
        (c' : RawSession W) × (e : RawError) × (sent : List ℕ) × (run_loop fuel resolver max
            writable c
          ≡ done c' e)
        × P c'.world
        × (c'.sent ≡ c.sent ++ sent)
        × Replies resolver max writable (length c.sent) c.world c.input sent c'.world e

    -- Run ends, and its replies and the memories at its end are those of the contract.
    abbrev pub Ends : W → List ℕ → Round W → Type 0
    Ends w input o =
        (c : RawSession W) × (e : RawError) × (o ≡ done c e)
        × P c.world
        × Replies resolver max writable 0 w input c.sent c.world e

    module _ (fuel : ℕ) (c : RawSession W)
        (more : (c' : RawSession W) → length c'.input < fuel → Held c' → Answers fuel c')
        (less : length c.input < suc fuel) (held : Held c) where
      applied :
          (f : RawFrame) (rest : List ℕ) (mem : RawWritableMemory W) (o : Outcome W W)
          → read_frame c.input max ≡ ok (f, rest)
          → resolver.resolve_memory_by_id f.header.unit_id ≡ some mem
          → apply_frame mem f c.world ≡ o
          → Kept o
          → Answers (suc fuel) c
      unfolding run_loop run_one Answers Held
      applied f rest mem (err w') q found e p = (
        reply c w' rest status_error,
        rejected,
        status_error ∷ [],
        rw (q, found, e, run_one, run_loop) refl,
        p,
        refl,
        refused _ _ _ f rest mem w' q found e,
      )
      applied f rest mem panic q found e p = absurd p
      applied f rest mem (ok w') q found e p =
          let frame = read_frame-IsFrameOf c.input max held.1 q in
          let tail = left-IsByte c.input max f rest frame held.1 in
          let shorter = frame.consumed in
          let c1 : RawSession W = reply c w' rest status_ok in
          elim (Bool-cases (writable (length c.sent))) [
            | inr broken ↦ (
              c1,
              write_failed,
              status_ok ∷ [],
              rw (q, found, e, broken, run_one, run_loop) refl,
              p,
              refl,
              cut _ _ _ f rest mem w' q found e broken,
            )
            | inl fine ↦
                let (c2, end, sent, r, p2, all, replies) =
                  more c1 (omega (arith, shorter)) (p, tail) in
                let count : length c1.sent ≡ length c.sent + 1 =
                  omega (arith, length-append c.sent (status_ok ∷ [])) in
                (
                  c2,
                  end,
                  status_ok ∷ sent,
                  rw (q, found, e, fine, run_one, run_loop) r,
                  p2,
                  all ∙ append_snoc c.sent sent status_ok,
                  answered _ _ _ f rest mem w' sent _ end q found e fine (
                      subst (λ n. Replies resolver max writable n w' rest sent c2.world end) count
                        replies),
                )
          ]

      module _ (good : KeepsAll resolver) where
        resolved :
            (f : RawFrame) (rest : List ℕ)
            → read_frame c.input max ≡ ok (f, rest)
            → Answers (suc fuel) c
        unfolding run_loop run_one Answers Held
        resolved f rest q = elim (Option-cases (resolver.resolve_memory_by_id f.header.unit_id)) [
          | inl e ↦ (
            reply c c.world rest status_error,
            rejected,
            status_error ∷ [],
            rw (q, e, run_one, run_loop) refl,
            held.0,
            refl,
            unknown _ _ _ f rest q e,
          )
          | inr (mem, e) ↦
              applied f rest mem (apply_frame mem f c.world) q e refl
                (apply_frame-Kept mem f c.world (good f.header.unit_id mem e) held.0)
        ]

        one_frame :
            (o : Outcome RawError (RawFrame × List ℕ))
            → read_frame c.input max ≡ o
            → Clean o
            → Answers (suc fuel) c
        unfolding run_loop run_one Answers Held
        one_frame (ok (f, rest)) q clean = resolved f rest q
        one_frame (err rejected) q clean = (
          reply c c.world c.input status_error,
          rejected,
          status_error ∷ [],
          rw (q, run_one, run_loop) refl,
          held.0,
          refl,
          unread _ _ _ q,
        )
        one_frame (err write_failed) q clean = absurd clean
        one_frame panic q clean = absurd clean

    module _ (good : KeepsAll resolver) where
      run_loop-Answers :
          (fuel : ℕ) (c : RawSession W) → length c.input < fuel → Held c → Answers fuel c
      run_loop-Answers zero c less h = absurd (omega arith)
      run_loop-Answers (suc fuel) c less h =
          one_frame fuel c (λ c' l r. run_loop-Answers fuel c' l r) less h good
            (read_frame c.input max) refl (read_frame-Clean c.input max)

      -- On an input of bytes, with memories whose writes never panic and keep an invariant, Run ends in a
      -- state of which the invariant holds, and the contract of the stream gives its replies and the
      -- memories at its end: for each frame that is written one byte 0, as long as these can be sent,
      -- and one byte 1 for the first frame that is refused, which is the last.
      pub run-Ends :
          (w : W) (input : List ℕ)
          → P w
          → All IsByte input
          → Ends w input (run resolver max writable w input)
      unfolding run Answers Held
      run-Ends w input p bytes =
          let (c, e, sent, r, p', all, replies) =
            run_loop-Answers (suc (length input)) (record { world = w; input = input; sent = [] })
              (omega arith) (p, bytes) in
          (c, e, r, p', rw all replies)
