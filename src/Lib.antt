-- ===== src/Lib.antt =====
-- A model of swu-go, the client side of an IPsec tunnel to an operator's gateway (SWu), with the
-- theorems that make its message formats, its request window and its message protection correct.
--
-- The program encodes and decodes IKEv2 messages (pkg/ikev2), protects them with the keys of the IKE SA
-- (pkg/swu/msg_handler.go), splits and joins long ones (pkg/swu/fragment.go), and sends requests through
-- a window that repeats them until they are answered (pkg/swu/window.go). A received datagram goes
-- through `decrypt_and_parse`, which opens it, collects it if it is a fragment, and parses the payloads;
-- the payload decoders are those of pkg/ikev2. An answer is handed to the window by its message ID.
--
-- The files, by the code that they model:
--   Prelude: helpers. A `Result` is a value (`ok`), an error (`err`), a run-time panic (`panic`), or
--   fuel that ran out (`stuck`): see below.
--   Bytes are numbers; theorems say which are in range. Prelude/Parse has the loops over a buffer,
--   Prelude/Map the maps by number.
--   Ikev2/Types: pkg/ikev2/constants.go and the decoders' errors.
--   Ikev2/Header: header.go and payload.go.
--   Ikev2/Body: payload_ke_nonce.go, payload_id.go, payload_auth.go, payload_notify.go, payload_delete.go.
--   Ikev2/Sa, Ikev2/Ts, Ikev2/Cp: payload_sa.go, payload_ts.go and payload_cp.go; Ikev2/Cp/Config:
--   cp_config.go.
--   Ikev2/Payload and Ikev2/Packet: the Payload interface, and packet.go.
--   Ikev2/Match: proposal_match.go.
--   Crypto: the interfaces Encrypter and IntegrityAlgorithm of pkg/crypto, as parameters, with the laws
--   that the protocol relies on. They are values. Crypto/Gcm has aesGCM of encrypt.go,
--   which appends the IV to the salt in place, over the first bytes of the key behind; the sessions are not
--   modelled with this write, so the theorems are about keys that it has not reached.
--   Crypto/Prf and Swu/Keys: PrfPlus of pkg/crypto/prf.go, and pkg/swu/crypto_keys.go.
--   Crypto/Milenage and Sim/Soft: milenage.go of pkg/crypto, with AES as a parameter, and pkg/sim/softsim.go.
--   Swu/Window: the task manager. A history is a list of calls, each one step under its lock; the proofs
--   about it are in Swu/Window/Invariant and Swu/Window/Accounting.
--   Swu/Fragment: addFragment and reassemble. Swu/Session: the fields of a session that are used.
--   Swu/Message: msg_handler.go, and decryptSKF of fragment.go.
--   Swu/Sending: buildSKFPacket and fragmentMessage of fragment.go; Swu/Sending/EndToEnd has both ends.
--   The chunks share the buffer of the text, so the padding of one is written over the next; `spare` is the room
--   that the buffer has behind the text.
--   Swu/Control: handleIncomingInformational of pkg/swu/ike_control.go, the requests of the gateway: a
--   request gives the new session, the callbacks that it makes, and the response.
--   Swu/AuthFinal: handleIKEAuthFinalResp of pkg/swu/state_auth.go, the first associations of the tunnel.
--   Crypto/DiffieHellman: ComputeSharedSecret of pkg/crypto/diffiehellman.go, with the prime as an argument.
--   Swu/Mobike: UpdateAddresses of pkg/swu/mobike.go.
--   Swu/Rekey: handleCreateChildSAResp of pkg/swu/state_rekey.go, with Crypto/Choice, which has the algorithms
--   by number.
--   Driver/NetTools and Driver/Transaction: nettools.go and transaction.go of pkg/driver, over package netlink
--   as a parameter.
--   Swu/Selector and Swu/Routes: pkg/swu/selector.go and routes.go.
--   Ipsec/Esp: pkg/ipsec/esp.go and sa.go, the packets of the tunnel.
--   Eap/Packet, Eap/Attributes, Eap/Auts, Eap/Reauth: pkg/eap, the packets of EAP-AKA, their attributes,
--   the answer to a challenge whose sequence number is out of step, and fast re-authentication.
--   Ipsec/Socket: what pkg/ipsec/socket.go decides on each datagram.
-- A module Tests has runs and the theorems at concrete inputs.
--
-- Fuel: a loop over a buffer gets the length of the buffer, and each round that goes on takes a byte at
-- least, so DecodePacket, the payload decoders and parsePayloads are never `stuck`. `reassemble` gets as many
-- rounds as the total and one more, which is enough for a total below 65535 (Swu/Message/Ends). With a total of
-- 65535 and a fragment under each number from 0 to 65535 the loop of the code does not end, and `reassemble`
-- is `stuck`.
--
-- An index or slice is `panic` here when it is out of range: where the code has no guard, and, by `need`, in
-- the payload decoders behind the guard too. Errors are constructors without the text of the message. Not
-- modelled: sockets, timers, goroutines and logs; the other exchanges of pkg/swu/state_*.go; the data plane of
-- pkg/ipsec, serial lines and card readers (pkg/sim) and the rest of the Linux drivers (pkg/driver).
pub mod Prelude
pub mod Crypto
pub mod Ikev2
pub mod Eap
pub mod Sim
pub mod Driver
pub mod Swu
pub mod Ipsec
