-- ===== src/Lib.antt =====
-- A model of mma2, a server that keeps Modbus-style memories and gives access to them over TCP.
--
-- The parts, and the files that model them (paths from the repository's root):
--   internal/memorycore: memories of four areas (coils, discrete inputs, holding and input registers).
--     Memorycore/Area, Layout, Bits, Memory and Store are area.go, layout.go, bits.go, memory.go with
--     state_sealing.go, and memory_id.go with store.go. A Memory is a record with the fields of the
--     struct; ReadBits, WriteBits, ReadRegs and WriteRegs are read_bits, write_bits, read_regs and
--     write_regs. The Store is a table from identifiers to pointers into a heap of memories, since the
--     Go map holds pointers. Memorycore/Units is what a client sees of it: for each unit a bit or a
--     register at each address, or nothing there.
--   internal/authority: Authority/Decision, IpMatch, Rules, Sealing and Evaluate are decision.go,
--     ipmatch.go, rules.go, sealing.go and authority.go.
--   internal/transport/modbus: Modbus/Wire is request.go, parser.go, mbap.go, pdu.go and response.go;
--     Modbus/Decode and Encode are pdu_types.go, pdu_decode.go and pdu_encode.go; Modbus/Dispatch is
--     dispatch_memorycore.go; Modbus/Conn is handle_conn.go, one round of its loop being serve_one.
--     Modbus/Spec is the contract of the transport on units: parse gives the command of a request or the
--     exception that refuses it, Obeys the response and the units after it, and Modbus/Spec/Conversation
--     the frames that answer a whole byte stream.
--   internal/transport/rawingest: RawIngest/Decoder is packet.go and decoder.go; RawIngest/Conn is
--     handle_conn.go, and RawIngest/Spec the contract of the transport on units.
--   internal/transport/raw: an older loop for raw ingest that main does not use. Raw/Frame is errors.go,
--     header_v1.go, sizing.go and conn_reader.go; Raw/Align is align_bits.go and align_regs.go; Raw/Loop
--     is types.go and ingest_loop.go, with the contract of its replies in Raw/Loop/Spec; Raw/Adapter is memory_adapter.go and resolver.go, on slices of a
--     runtime memory, and Raw/Writer is conn_writer.go.
--   internal/config: Config is the types of config.go, build_memory_store.go and parseListenPort of
--     build_authority_policies.go; Config/Load is loader.go, Config/Validate is validate.go, and
--     Config/Policies the rest of build_authority_policies.go; Config/Policies/Stated is what a policy of
--     the configuration states, and the decision that it asks for.
--   internal/ingress: Ingress is Classify and the routing of listener.go.
--   cmd/mma2: Main is what main does with one connection, ingress and the two transports together, and
--     Main/Startup what main does before it opens the listeners. Main/Threads is the goroutines of the
--     connections on one store: Thread is where a connection stands, advance its next step, Step a step
--     of one of them, and Reaches any schedule; Main/Threads/Accept is the accept loop of listener.go.
--     Main/Threads/Spec is the server as its clients see it, with units in place of the store.
--     Main/Connections/Contract is what one connection, whichever transport takes it, is answered.
--     Main/Process is the process after its start: its listeners, which open a socket and accept
--     (ListenAndServe), its connections, and its end when a listener fails or a goroutine panics;
--     Main/Process/Spec is this process as its clients see it.
--   tools: Tools is raw_ingest_test.go, a producer of one packet; raw_ingest_send.go is only a comment.
--   Golang holds what the code uses of Go's libraries, Words the big-endian 16-bit accesses, Base the
--   shared names and lemmas, Tests the theorems at concrete data.
--
-- How the parts interact: main loads a configuration, validates it, and builds from it the store and the
-- policies of the authority. Ingress hands a connection to the Modbus or the raw-ingest loop. Both loops
-- look a memory up in the store by the local port and the unit of the request. The Modbus loop first
-- refuses a request whose memory is sealed (its sealing bit reads 0), then one that the authority
-- denies, and dispatches the others; the raw-ingest loop writes without either check.
--
-- Conventions: numbers are natural numbers, and the wrap of `uint16` and `uint32` sums is written out.
-- A Go result is an Outcome: a value, an error, or a run-time panic. What mutates returns the new
-- state. A connection's input is the list of bytes that the peer sends before it closes. The
-- connection loops take fuel, one more than the bytes of the input, and every round takes a byte at
-- least, so the fuel does not run out.
--
-- The loops over a Go map take its entries in the order of a list. In Main/Threads a step is what the
-- code does under one lock: the check of a request against the sealing bit, the dispatch of a request, or
-- the write of a packet; a connection can be interrupted between two steps.
--
-- Not modelled: logging, the closing of connections, the mutexes and the blocking of reads and
-- writes (a goroutine that is not at its end can always take its next step), and internal/domain,
-- which is empty. Parameters stand for code that is not in the repository: Parser for the parsers of
-- net/netip, TextLibrary for the functions of net, strconv and strings that the configuration calls,
-- FileLibrary for os.ReadFile and the YAML decoder that Load calls, NetLibrary for net.Listen and
-- Accept, RuntimeMemory and Runtime for the package internal/runtime, and the memories behind the
-- interfaces of the raw transport.
pub mod Base
pub mod Words
pub mod Golang
pub mod Memorycore
pub mod Authority
pub mod Modbus
pub mod RawIngest
pub mod Raw
pub mod Config
pub mod Ingress
pub mod Main
pub mod Tools
pub mod Tests
