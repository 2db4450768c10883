-- ===== src/Main/Connections.antt =====
-- What any connection to the server does to the store (cmd/mma2/main.go, internal/ingress).
pub mod Contract
use mma.Base.{
  ℕ, ◌≡◌, ◌≢◌, ◌⊎◌, inl, inr, refl, arith, Bool, true, false, ◌==◌, ◌&&◌, leb, Bool-cases, none,
  some, List, length, get_or, All,
}
use mma.Words.{IsByte}
use mma.Memorycore.Store.{MemoryId, Store, Pointer, deref, get}
use mma.Memorycore.Store.WellFormed.{IsSoundStore}
use mma.Authority.Evaluate.{Authority}
use mma.Modbus.Conn.{Session, Turn, Peer, is_blocked}
use mma.Modbus.Conn
use mma.Modbus.Conn.Runs.{handle_conn_total, handle_conn_isolates, handle_conn_keeps_blocked}
use mma.RawIngest.Conn as Raw
use mma.RawIngest.Conn.Feeds.{handle_conn_ends, handle_conn_confined}
use mma.Ingress.{classify, route}
use mma.Main.{by_modbus, by_raw_ingest, serve, store_after}

-- The two bytes that select raw ingest.
abbrev pub starts_raw : List ℕ → Bool
starts_raw input = get_or input 0 0 == b'R' && get_or input 1 0 == b'I'

module _ (auth : Authority) (peer : Peer) (s : Store) (input : List ℕ) where
  -- The three ways a connection goes; the transport reads the input from its first byte.
  serve_cases :
      (serve auth peer s input ≡ none)
      ⊎ ((starts_raw input ≡ false)
          × (serve auth peer s input ≡ some (by_modbus (Conn.handle_conn auth peer s input))))
      ⊎ ((starts_raw input ≡ true)
          × (serve auth peer s input ≡ some (by_raw_ingest (Raw.handle_conn peer.port s input))))
  unfolding serve route classify
  serve_cases = elim (Bool-cases (leb 2 (length input))) [
    | inr few ↦ inl (ground arith)
    | inl enough ↦ elim (Bool-cases (starts_raw input)) [
      | inl raw ↦ inr (inr (raw, ground arith))
      | inr other ↦ inr (inl (other, ground arith))
    ]
  ]

  module _ (w : IsSoundStore s) where
    -- On a sound store and an input of bytes, every connection ends without a panic, whichever
    -- transport takes it, and leaves a sound store.
    pub serve_total :
        All IsByte input
        → (s' : Store) × (store_after s (serve auth peer s input) ≡ some s') × IsSoundStore s'
    serve_total bytes = elim serve_cases [
      | inl e ↦ (s, rw e refl, w)
      | inr (inl (_, e)) ↦
          let (c, q, w') = handle_conn_total auth peer s input w in (c.store, rw (e, q) refl, w')
      | inr (inr (_, e)) ↦
          let (c, q, w', _) = handle_conn_ends peer.port s input w bytes in
          (c.store, rw (e, q) refl, w')
    ]

    -- On a sound store and an input of bytes, a connection to one port ends with a memory registered
    -- under another port registered and as it was, whichever transport takes it.
    pub serve_isolates :
        (id : MemoryId) (p : Pointer)
        → All IsByte input
        → id.port ≢ peer.port
        → get (some s) id ≡ some p
        → (s' : Store) × (store_after s (serve auth peer s input) ≡ some s')
          × (get (some s') id ≡ some p)
          × (deref s' p ≡ deref s p)
    serve_isolates id p bytes other here = elim serve_cases [
      | inl e ↦ (s, rw e refl, here, refl)
      | inr (inl (_, e)) ↦
          let (c, q, g, d) = handle_conn_isolates auth peer s input w id p other here in
          (c.store, rw (e, q) refl, g, d)
      | inr (inr (_, e)) ↦
          let (c, q, g, d) = handle_conn_confined peer.port s input w bytes id p other here in
          (c.store, rw (e, q) refl, g, d)
    ]

    -- On a sound store, a connection whose first two bytes are not the magic of raw ingest ends with
    -- every memory that state sealing blocked still blocked.
    pub serve_keeps_blocked :
        (id : MemoryId)
        → starts_raw input ≡ false
        → is_blocked s id ≡ true
        → (s' : Store) × (store_after s (serve auth peer s input) ≡ some s')
          × (is_blocked s' id ≡ true)
    serve_keeps_blocked id plain blocked = elim serve_cases [
      | inl e ↦ (s, rw e refl, blocked)
      | inr (inl (_, e)) ↦
          let (c, q, b) = handle_conn_keeps_blocked auth peer s input w id blocked in
          (c.store, rw (e, q) refl, b)
      | inr (inr (raw, e)) ↦ cc (plain, raw)
    ]
