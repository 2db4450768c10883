-- ===== src/Main/Process/Spec.antt =====
-- The process (cmd/mma2/main.go) as its clients see it: units, and connections that come from the
-- network and whose commands and packets are carried out one at a time.
use Prim.Native.String.{String}
use mathlib.Core.List.{Memᴰ}
use mma.Base.{ℕ, suc, ◌≡◌, Option, some, List, [], ◌∷◌, ◌++◌, get_elem?, set}
use mma.Authority.Evaluate.{Authority}
use mma.Modbus.Conn.{Peer}
use mma.Memorycore.Units.{Units}
use mma.Main.Threads.{Thread}
use mma.Main.Threads.Spec.{Moves}
use mma.Main.Threads.Accept.{spawn}
use mma.Main.Process.{NetLibrary}

-- A connection that Accept returns on some address.
abbrev pub Comes : NetLibrary → Peer → List ℕ → Type 0
Comes net peer input =
    (sockets : List String) × (address : String) × (conns : List (Option (Peer × List ℕ)))
    × (net.listen sockets address ≡ some conns)
    × Memᴰ (some (peer, input)) conns

-- The runs of `n` steps from units without connections to units and connections.
pub data Runs (net : NetLibrary) (auth : Authority) (u : Units)
    : ℕ → Units → List Thread → Type 0 where
  started : Runs net auth u 0 u []
  -- A listener opens its socket, or an Accept fails.
  waited :
      (n : ℕ) (v : Units) (us : List Thread) → Runs net auth u n v us → Runs net auth u (suc n) v us
  came :
      (n : ℕ) (v : Units) (us : List Thread) (peer : Peer) (input : List ℕ)
      → Runs net auth u n v us
      → Comes net peer input
      → Runs net auth u (suc n) v (us ++ spawn peer input ∷ [])
  moved :
      (n : ℕ) (v : Units) (us : List Thread) (place : ℕ) (t t' : Thread) (v' : Units)
      → Runs net auth u n v us
      → get_elem? us place ≡ some t
      → Moves auth v t t' v'
      → Runs net auth u (suc n) v' (set us place t')
