-- ===== src/Raw/Loop.antt =====
-- internal/transport/raw: types.go, and the loop of ingest_loop.go. A frame is fourteen bytes at least,
-- so the loop takes the length of the input as fuel.
pub mod Clean
pub mod Effects
pub mod Spec
pub mod Runs
use mma.Base.{
  ℕ, zero, suc, ◌==◌, Bool, if◌then◌else◌, Option, none, some, List, [], ◌∷◌, ◌++◌, length, Outcome,
  ok, err, panic, ◌>>=◌,
}
use mma.Raw.Frame.{RawError, rejected, write_failed, RawFrame, read_frame}
use mma.Raw.Align.{align_bits, align_regs}

-- RawWritableMemory over the state `W` of the memories: an error may change the state too.
pub record RawWritableMemory (W : Type 0) : Type 0 where
  pub write_coils : ℕ → List Bool → W → Outcome W W
  pub write_discrete_inputs : ℕ → List Bool → W → Outcome W W
  pub write_holding_registers : ℕ → List ℕ → W → Outcome W W
  pub write_input_registers : ℕ → List ℕ → W → Outcome W W

pub record MemoryResolver (W : Type 0) : Type 0 where
  pub resolve_memory_by_id : ℕ → Option (RawWritableMemory W)

abbrev pub status_ok : ℕ
status_ok = 0x00

abbrev pub status_error : ℕ
status_error = 0x01

-- The state of the memories, the bytes still to be read, and the status bytes handed to `conn.Write`.
pub record RawSession (W : Type 0) : Type 0 where
  pub world : W
  pub input : List ℕ
  pub sent : List ℕ

-- `stuck` is no state of the program: the loop's fuel ran out.
pub data Round (W : Type 0) : Type 0 where
  next : RawSession W → Round W
  done : RawSession W → RawError → Round W
  crashed : Round W
  stuck : Round W

module _ {W : Type 0} where
  -- A write of aligned values: `err` of the state if it is refused.
  abbrev pub with_values {ℓ} :
      {A : Type ℓ} → Outcome RawError A → (A → W → Outcome W W) → W → Outcome W W
  with_values (ok values) write w = write values w
  with_values (err e) write w = err w
  with_values panic write w = panic

  -- The switch on the area.
  unfoldable pub apply_frame : RawWritableMemory W → RawFrame → W → Outcome W W
  apply_frame mem f w =
      let area = f.header.area in
      let address = f.header.address in
      let count = f.header.count in
      if area == 0x01
      then with_values (align_bits f.payload count) (mem.write_coils address) w
      else if area == 0x02
      then with_values (align_bits f.payload count) (mem.write_discrete_inputs address) w
      else if area == 0x03
      then with_values (align_regs f.payload count) (mem.write_holding_registers address) w
      else if area == 0x04
      then with_values (align_regs f.payload count) (mem.write_input_registers address) w
      else err w

  abbrev pub reply : RawSession W → W → List ℕ → ℕ → RawSession W
  reply c w rest status = record { world = w; input = rest; sent = c.sent ++ status ∷ [] }

  abbrev pub finish : (ℕ → Bool) → RawSession W → List ℕ → Outcome W W → Round W
  finish writable c rest (ok w) =
      let c' = reply c w rest status_ok in
      if writable (length c.sent) then next c' else done c' write_failed
  finish writable c rest (err w) = done (reply c w rest status_error) rejected
  finish writable c rest panic = crashed

  -- One round of the loop; `writable n` says whether the `n`-th write to the connection succeeds.
  unfoldable pub run_one : MemoryResolver W → ℕ → (ℕ → Bool) → RawSession W → Round W
  run_one resolver max_packet_bytes writable c = elim (read_frame c.input max_packet_bytes) [
    | err e ↦ done (reply c c.world c.input status_error) e
    | panic ↦ crashed
    | ok (f, rest) ↦ elim (resolver.resolve_memory_by_id f.header.unit_id) [
      | none ↦ done (reply c c.world rest status_error) rejected
      | some mem ↦ finish writable c rest (apply_frame mem f c.world)
    ]
  ]

  unfoldable pub run_loop : ℕ → MemoryResolver W → ℕ → (ℕ → Bool) → RawSession W → Round W
  run_loop zero resolver max_packet_bytes writable c = stuck
  run_loop (suc fuel) resolver max_packet_bytes writable c =
      elim (run_one resolver max_packet_bytes writable c) [
        | next c' ↦ run_loop fuel resolver max_packet_bytes writable c'
        | done c' e ↦ done c' e
        | crashed ↦ crashed
        | stuck ↦ stuck
      ]

  unfoldable pub run : MemoryResolver W → ℕ → (ℕ → Bool) → W → List ℕ → Round W
  run resolver max_packet_bytes writable w input =
      run_loop (suc (length input)) resolver max_packet_bytes writable
        (record { world = w; input = input; sent = [] })
