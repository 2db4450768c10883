-- ===== src/Memorycore/Layout/Laws.antt =====
-- What the checks of internal/memorycore/layout.go say in plain arithmetic.
use mma.Base.{ℕ, ◌+◌, ◌-◌, ◌≤◌, ◌<◌, ◌≡◌, true, arith, ok}
use mma.Words.{IsU16}
use mma.Memorycore.Layout.{AreaLayout, validate, contains, offset}

-- The range that starts at `address` lies in the layout.
pub record InLayout (l : AreaLayout) (address count : ℕ) : Type 0 where
  pub nonempty : 0 < count
  pub from : l.start ≤ address
  pub until : address + count ≤ l.start + l.size

pub contains→InLayout :
    (l : AreaLayout) (address count : ℕ)
    → contains l address count ≡ true
    → InLayout l address count
unfolding contains
contains→InLayout l address count h = ground arith

pub InLayout→contains :
    (l : AreaLayout) (address count : ℕ)
    → InLayout l address count
    → contains l address count ≡ true
unfolding contains
InLayout→contains l address count h = ground arith

-- A layout that passes `Validate` is not empty and ends in the 16-bit address space.
pub record IsLayout (l : AreaLayout) : Type 0 where
  pub nonempty : 0 < l.size
  pub size_u16 : IsU16 l.size
  pub start_u16 : IsU16 l.start
  pub fits : l.start + l.size ≤ 65536

pub validate-IsLayout :
    (l : AreaLayout) → IsU16 l.start → IsU16 l.size → validate l ≡ ok tt → IsLayout l
unfolding validate
validate-IsLayout l hs hz h = ground arith

pub IsLayout-validate : (l : AreaLayout) → IsLayout l → validate l ≡ ok tt
unfolding validate
IsLayout-validate l h = ground arith

-- For an address of the layout neither conversion of `Offset` wraps.
pub offset-eq :
    (l : AreaLayout) (address : ℕ)
    → IsLayout l
    → l.start ≤ address
    → IsU16 address
    → offset l address ≡ address - l.start
unfolding offset
offset-eq l address h from hu = omega arith
