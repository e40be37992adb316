-- ===== src/Lib.antt =====
-- The SIP protocol: end-to-end encryption between agents, with an international suite of ciphers
-- (EN) and a Chinese one (ZH). The model covers the program's own logic over the primitives that it
-- takes from other packages.
--
-- Parts and files
--   crypto/sm2_ciphertext.py   Crypto/Sm2Ciphertext: Der (the DER encoding), Format (the five formats
--                              and their conversion), Decrypt (key stream, digest check, decryption)
--   crypto/sm2.py              Crypto/Sm2: the curve, keys and exchanges
--   crypto/suite.py            Crypto/Suite
--   crypto/hkdf.py             Crypto/Hkdf
--   crypto/dh.py               Crypto/Dh
--   crypto/xchacha20_poly1305.py   Crypto/Aead
--   managers/nonce.py          Nonce
--   protocol/message.py        Protocol/Message
--   protocol/handshake.py      Protocol/Handshake
--   protocol/rekey.py          Protocol/Rekey
--   filetransfer/*.py          FileTransfer: Format, Packer, Unpacker
--   managers/session.py        Session
--   transport/message.py       Transport/Message
--   transport/encrypted_channel.py   Transport/Channel: its state; Handshake, Send, Receive and Rekey
--                              hold its operations, the other children what holds of them
--   tools/sm2cvt.py, tools/gmcvt.py   Tools: Input (reading and decoding), Sm2cvt, Gmcvt
--   scripts/interop/reference_impl.py   Interop: a second implementation of the protocol, and its
--                              agreement with the first
-- All paths but the last stand under src/sip_protocol. A channel runs the handshake, counts and
-- encrypts the messages that it sends, checks and decrypts those that it receives, and starts and
-- answers changes of keys. A message or a handshake derives keys by Hkdf from what Dh
-- exchanges, and encrypts by Aead; the file transfer uses Aead and Hkdf with a key of its own; a
-- change of keys starts from the keys of a handshake. Python holds the parts of the Python library
-- that the source uses: big-endian numbers, hexadecimal, base64, UTF-8, and json.dumps of flat
-- objects. Prelude holds shared notation, lists, Boolean tests and results.
--
-- Representation
--   A byte string is a list of numbers, and IsBytes says that each is below 256. A text is the list of
--   its code points. A function that may raise returns a Result with the error that is raised. A dict
--   that is read is a record of optional fields, so that a missing key is its own error. Clocks and
--   random draws are arguments. A file is the list of its bytes.
--
-- Fuel
--   _kdf runs for as many rounds as bytes are asked for, and each round adds 32. _scalar_mult runs for
--   the bit length of the scalar, which each round halves. write_chunks runs for the length of the
--   file, of which each round reads a byte or more. str(n) runs for n + 1 rounds, one for each digit.
--   The loop of the reference's HKDF runs for the length that is asked for, and each round adds a
--   digest.
--
-- Parameters
--   Crypto/Primitives and Crypto/Sm3 are records of the functions of the cryptography and argon2
--   packages, with what is documented of them: output lengths, that opening inverts sealing, that an
--   X25519 exchange has the same result on both sides. FileTransfer, Session and Transport/Message take
--   JSON texts as pairs of inverse functions. Interop/Rfc has the HMAC of RFC 2104 and the HKDF of
--   RFC 5869, and Interop/Documented adds to the primitives that theirs are these; that the reference
--   builds these is proved. Tests/Toys and Tests/Documented have instances that keep these laws.
--
-- Not modelled
--   The MCP server; what argparse does for the command line tools, and their notes on standard error;
--   on a channel the counts of bytes and the callbacks; of the reference implementation the artifacts;
--   paths, temporary files and disk errors of the file transfer; wiping of keys in memory; times and
--   sequence numbers that are negative or not whole, but for those of an artifact's header. The group
--   law of the SM2 curve is not proved: agreement of the two sides is stated for the suite EN, except
--   for messages.
pub mod Prelude
pub mod Python
pub mod Crypto
pub mod Nonce
pub mod Session
pub mod FileTransfer
pub mod Protocol
pub mod Transport
pub mod Tools
pub mod Interop
pub mod Tests
