-- ===== src/Tests/Raw.antt =====
-- The theorems on the older raw transport at concrete frames.
use mma.Base.{
  ℕ, ◌+◌, ◌<◌, ◌≤◌, ◌≡◌, refl, arith, Bool, Bool-cases, inl, inr, true, false, ◌==◌, leb,
  if◌then◌else◌, none, some, some-injective, List, [], ◌∷◌, length, get_or, All, Outcome, ok, err,
}
use mma.Words.{IsByte, load_u16}
use mma.Golang.Reader.{read_full}
use mma.Memorycore.Bits.Loops.{bit_at}
use mma.Raw.Frame.{RawFrame, parse_v1_header, payload_size, read_frame}
use mma.Raw.Frame.Bounds.{IsFrameOf, read_frame-IsFrameOf}
use mma.Raw.Loop.Effects.{apply_frame-bits}
use mma.Raw.Writer.{write_ok, write_rejected}
use mma.Raw.Loop.{status_ok, status_error, RawWritableMemory, MemoryResolver, apply_frame, run}
use mma.Raw.Loop.Runs.{Kept, Keeps, KeepsAll, Ends, run-Ends}

-- Three coils, and one holding register, of unit 1 from address 0 on.
abbrev pub coil_bytes : List ℕ
coil_bytes = 0xa5 ∷ 0x5a ∷ 1 ∷ 0 ∷ 1 ∷ 0 ∷ 0 ∷ 1 ∷ 1 ∷ 0xf6 ∷ 0 ∷ 0 ∷ 0 ∷ 3 ∷ 5 ∷ []

abbrev pub reg_bytes : List ℕ
reg_bytes = 0xa5 ∷ 0x5a ∷ 1 ∷ 0 ∷ 3 ∷ 0 ∷ 0 ∷ 1 ∷ 1 ∷ 0xf6 ∷ 0 ∷ 0 ∷ 0 ∷ 1 ∷ 0x12 ∷ 0x34 ∷ []

abbrev pub frame_of : ℕ → ℕ → List ℕ → RawFrame
frame_of area count payload = record {
  header = record {
    magic = 0xa55a;
    version = 1;
    flags = 0;
    area = area;
    rsv = 0;
    unit_id = 1;
    port = 502;
    address = 0;
    count = count;
  };
  payload = payload;
}

pub coil_bytes-IsByte : All IsByte coil_bytes
coil_bytes-IsByte = ground arith

reg_bytes-IsByte : All IsByte reg_bytes
reg_bytes-IsByte = ground arith

pub coils_read : read_frame coil_bytes 64 ≡ ok (frame_of 1 3 (5 ∷ []), [])
unfolding read_frame read_full parse_v1_header load_u16 payload_size
coils_read = refl

regs_read : read_frame reg_bytes 64 ≡ ok (frame_of 3 1 (0x12 ∷ 0x34 ∷ []), [])
unfolding read_frame read_full parse_v1_header load_u16 payload_size
regs_read = refl

pub coils_framed : IsFrameOf coil_bytes 64 (frame_of 1 3 (5 ∷ [])) []
coils_framed = read_frame-IsFrameOf coil_bytes 64 coil_bytes-IsByte coils_read

regs_framed : IsFrameOf reg_bytes 64 (frame_of 3 1 (0x12 ∷ 0x34 ∷ [])) []
regs_framed = read_frame-IsFrameOf reg_bytes 64 reg_bytes-IsByte regs_read

read_frame-IsFrameOf_example : IsFrameOf coil_bytes 64 (frame_of 1 3 (5 ∷ [])) []
read_frame-IsFrameOf_example = read_frame-IsFrameOf coil_bytes 64 coil_bytes-IsByte coils_read

-- A memory that counts its writes, and refuses them from the hundredth on.
abbrev counted {ℓ} : {A : Type ℓ} → ℕ → A → ℕ → Outcome ℕ ℕ
counted address values w = if leb 100 w then err w else ok (w + 1)

abbrev counter : RawWritableMemory ℕ
counter = record {
  write_coils = counted;
  write_discrete_inputs = counted;
  write_holding_registers = counted;
  write_input_registers = counted;
}

abbrev resolver_a : MemoryResolver ℕ
resolver_a = record { resolve_memory_by_id = λ id. if id == 1 then some counter else none }

counted-Kept {ℓ} :
    {A : Type ℓ} (address : ℕ) (values : A) (w : ℕ)
    → w ≤ 100
    → Kept (λ w. w ≤ 100) (counted address values w)
counted-Kept address values w h = ground arith

counter-Keeps : Keeps (λ w. w ≤ 100) counter
counter-Keeps = record {
  coils = counted-Kept;
  discrete = counted-Kept;
  holding = counted-Kept;
  input = counted-Kept;
}

resolver_a-KeepsAll : KeepsAll (λ w. w ≤ 100) resolver_a
resolver_a-KeepsAll id mem e = elim (Bool-cases (id == 1)) [
  | inl b ↦
      let q : counter ≡ mem = some-injective counter mem (rw b at e) in
      coe 0 1 (i. Keeps (λ w. w ≤ 100) (q i)) counter-Keeps
  | inr b ↦ let none_there : none ≡ some mem = rw b at e in cc none_there
]

run-Ends_example :
    Ends
      (λ w. w ≤ 100)
      resolver_a
      64
      (λ n. true)
      0
      coil_bytes
      (run resolver_a 64 (λ n. true) 0 coil_bytes)
run-Ends_example =
    run-Ends (λ w. w ≤ 100) resolver_a 64 (λ n. true) resolver_a-KeepsAll 0 coil_bytes (omega arith)
      coil_bytes-IsByte

apply_frame-bits_example :
    (out : List Bool) × (apply_frame counter (frame_of 1 3 (5 ∷ [])) 0
      ≡ counter.write_coils 0 out 0)
    × (length out ≡ 3)
    × ((k : ℕ) → k < 3 → get_or out k false ≡ bit_at (5 ∷ []) k)
apply_frame-bits_example =
    apply_frame-bits counter 0 coil_bytes 64 (frame_of 1 3 (5 ∷ [])) [] coils_framed refl
      coil_bytes-IsByte (omega arith)

-- The writers of conn_writer.go send the status bytes of the loop.
same_status :
    (write_ok (λ bytes. bytes) ≡ status_ok ∷ [])
    × (write_rejected (λ bytes. bytes) ≡ status_error ∷ [])
unfolding write_ok write_rejected
same_status = (refl, refl)
