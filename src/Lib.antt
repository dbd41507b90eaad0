-- ===== src/Lib.antt =====
-- sing-ewp, the EWP v2 protocol: a client and a server that share a UUID agree on session keys with a
-- hybrid handshake (X25519 and ML-KEM-768), then exchange encrypted and padded frames.
--
-- The parts, and the files that model them:
--   address.go         Address: destinations (`Address`), `append` for Append, `decode_address` for
--                      DecodeAddress, cut where its switch branches
--   kdf.go             Kdf: the constants, and `outer_mac`, `handshake_aead_key`,
--                      `derive_session_keys`
--   frame.go           Frame: `encode_frame_append` and `decode_frame` under a `FrameAead`;
--                      Frame/Writer: `encode_frame`; Frame/PadLen: `suggest_pad_len`
--   padding_policy.go  PaddingPolicy: `suggest_stream_pad` and `pad_to_bucket`
--   anti_replay.go     AntiReplay: `ReplayCache` and `mark_seen_or_reject`
--   handshake.go       Hello: the codecs of the two messages; Handshake: `write_client_hello`,
--                      `accept_client_hello` (AcceptClientHelloWithReplay), `read_server_hello`
--   securestream.go    SecureStream: `send_frame` and the Send methods on it, `recv_event` for Recv;
--                      SecureStream/UdpMeta: `build_udp_meta` and `parse_udp_meta`;
--                      Cover: `start_cover_traffic` and `cover_loop`
--   client.go          Framer: `send_message` and `read_message` of LengthFramer; Uuid: `parse_uuid`;
--                      StreamConn: `read` and `write_bytes` of streamConn,
--                      StreamConn/Close: its Close; Client: `client_handshake`, `dial_conn` and
--                      `dial_packet_conn`
--   packetconn.go      PacketConn: `write_to_address` with `ensure_open`, `read_from`, `close_conn`;
--                      PacketConn/Interleaving: writers that run at once; NetAddr: `addr_to_ewp` and
--                      `ewp_to_net_addr`
--   server.go          Service: the users (`add_user`, `remove_user`), `handle_conn` and
--                      `handle_transport`, which calls the handshake and hands a connection to the
--                      handler; Service/Calls: `handle_calls`, its calls of the transport with
--                      their deadline; Service/History: `serve` (HandleMessageTransport) and sequences of
--                      the operations of a Service
-- Prelude, Bytes and Errors hold what they share: Boolean tests, lists, big-endian numbers, error
-- values and the result type. A module with the name of a component has its definitions, its children
-- have the proofs, its child Tests has runs at concrete inputs.
--
-- How state is modelled. A FrameAEAD, a ClientHandshakeState and a ReplayCache are records; an
-- operation takes the record and returns the new one with its result, on error paths too. The clock,
-- the random reads and the generated keys are arguments, one for each read the code makes, and a read
-- may fail. A reader of DecodeFrame is the list of the bytes that are left in it. Numbers are ℕ with
-- the wrap-around of the machine type written out; a signed argument that may be negative is a ℤ.
-- Unix times are not negative.
--
-- SHA-256, HMAC, HKDF and ChaCha20-Poly1305 are a parameter (Crypto), as are X25519 and ML-KEM-768
-- (Handshake/Asymmetric). Their laws are sizes, that what is sealed opens, that only what was sealed
-- with the same key, nonce and data opens, and that both sides of a key exchange agree. Crypto/Toy and
-- Handshake/Toy meet them. Secrecy is not modelled: it is not a property of one function's values.
--
-- The loops of SendTCPData and of streamConn.Write are on fuel, the length of the payload: no chunk is
-- empty; where the fuel runs out they return an error of the model's own. Every other loop is over a
-- list. The transport of streamConn.Read is the list of the messages
-- that are still to come, then its end. A send meets an environment (`SendEnv`) with its random reads,
-- the clock and whether the transport takes the message; what the transport took is a result.
--
-- A method that holds a mutex is one step. WriteToAddress tests `opened` before it takes the mutex, so
-- its writers are a step relation (PacketConn/Interleaving) whose steps are the test and the send.
--
-- Not modelled: other interleavings, net.Conn with its addresses and later deadlines, texts of errors,
-- slice capacity and reuse of buffers, and timers: the turns of coverLoop are a list.
pub mod Prelude
pub mod Bytes
pub mod Errors
pub mod Address
pub mod Crypto
pub mod Kdf
pub mod Frame
pub mod PaddingPolicy
pub mod AntiReplay
pub mod Hello
pub mod Handshake
pub mod SecureStream
pub mod Framer
pub mod Uuid
pub mod Service
pub mod StreamConn
pub mod NetAddr
pub mod PacketConn
pub mod Client
pub mod Cover
