-- ===== src/Lib.antt =====
-- Macaroons: a verification library for the crate `libmacaroon`.
--
-- A macaroon is a bearer token: an identifier, an optional location, caveats, and a signature that
-- is a chain of HMACs from the identifier under a root key over every caveat. A first-party caveat
-- is a predicate that the verifier tests. A third-party caveat carries a key, sealed under the
-- signature reached so far, and is met by a discharge macaroon issued under that key and bound to
-- the macaroon. The crate builds macaroons (src/lib.rs), verifies them (src/verifier.rs), and
-- writes and reads them in three formats (src/serialization/).
--
-- Files and the code they are about:
--   Prelude            names of the libraries passed on, tests on ℕ and byte strings, lemmas on
--                      lists and bit operations
--   Error              src/error.rs; `Result`, with a value for a run that aborts. Below it: Safe
--                      (runs that end without aborting, and the rules for it), Yields (what holds of the value of a
--                      run), Alike (two runs that end in the same way), Display (the text of an
--                      error)
--   Utf8, Slices       what the crate uses of Rust's strings and slices
--   Crypto             src/crypto/mod.rs, src/crypto/rustcrypto.rs. The functions of the packages
--                      hmac, sha2 and crypto_secretbox are the record `Primitives`, a parameter;
--                      `Laws` states what their documentation does. `Entropy` is getrandom.
--   Caveat             src/caveat.rs: `Caveat`, its signature
--   CaveatBuilder      src/caveat.rs: `CaveatBuilder`; Valid (what it builds is within the limits)
--   Limits, Macaroon   src/lib.rs: the limits; `create`, `add_first_party_caveat`,
--                      `add_third_party_caveat`, `bind`, `validate` and the accessors. Below it:
--                      Valid (well-formedness), Signature (the chain), Minted (every macaroon that
--                      the operations reach), Calls (the calls of HMAC behind a signature)
--   Verifier           src/verifier.rs: `verify`, `verify_with_sig`, `satisfy_exact`,
--                      `satisfy_general`. Below it: Spec (what a verification promises: a tree
--                      of discharges), Complete and Refines (that it is kept), Sound, Local
--                      (first-party caveats alone), Discharge (one bound discharge), Missing (no
--                      discharge), Reject (duplicate discharges), Monotone, Safety, Order (of the
--                      discharges), Tamper (a changed macaroon), Attenuate (an added predicate),
--                      Relocate (other locations), Depth, Outcome (every branch), Elsewhere (a
--                      discharge bound to another); Collect, Removal and Sets for the map of
--                      discharges
--   MacaroonBuilder    src/serialization/macaroon_builder.rs; Valid
--   V2                 src/serialization/v2.rs: Encode (the writer), Reader (`Deserializer`),
--                      Decode (`deserialize`); RoundTrip, Canonical, Valid and Safety for what they
--                      prove, Varint, Bytewise, Fields, Tagged, Steps, Taken, Stages, CaveatStages,
--                      CaveatsRead, Advance and Progress for the lemmas
--   V1                 src/serialization/v1.rs: Encode (the writer), Reader (packets), Decode (the
--                      state machine over the packets); RoundTrip, TooLarge, Loose, Valid and
--                      Safety for what they prove, Header, Packets, Machine and Groups for the
--                      lemmas
--   Base64             src/lib.rs: `base64_decode_flexible`; the engines of the package base64 are
--                      the record `Engines`, a parameter with the laws `EngineLaws`
--   V2Json             src/serialization/v2json.rs; the text of an object is the package serde_json,
--                      the record `Json`, a parameter with the laws `JsonLaws`. RoundTrip, Valid and
--                      Safety; Spells, Accepts and Spellings for the objects that are read as a macaroon
--   Token              src/lib.rs and src/serialization/mod.rs: `serialize`, `deserialize` and
--                      `deserialize_binary`, which choose the format. RoundTrip, Valid, Safety,
--                      Transport (base64 text and bytes)
--   WasmExample        examples/wasm_example.rs; Succeeds
--   FuzzTargets        fuzz/fuzz_targets/
--   Examples           samples and tests, with concrete functions for the primitives
--
-- State and representation: a method with `&mut self` is a function from the record to the record
-- it leaves, within `Result` where it may fail. A byte is a natural number, a byte string or
-- `String` a list of them; a `String` is one for which `is_utf8` holds. The map of discharges is an
-- association list. An index or range out of bounds, and a copy between slices of different
-- lengths, is the value `panic`. `usize` has 64 bits, and the shift of a field size wraps at that
-- width.
--
-- Bounds and fuel: `verify_with_sig` runs on the number of levels that the depth limit leaves, 33
-- at the root, which is the code's own bound. `varint_loop` runs on the size, which shrinks in
-- every round. `field_size_loop` has ten rounds; its guard ends it after nine. `read_caveats` and
-- `read_packets` have as many rounds as the token has bytes, and each round takes at least one.
--
-- Not modelled: log output, constant time and zeroizing; the lossy text of an identifier or
-- predicate within an error message (the bytes stand there instead); implementations of `AsRef`,
-- `Borrow`, `From`, `Debug` and `Error` that only pass a value on, and the functions of
-- src/crypto/mod.rs that call their namesake of src/crypto/rustcrypto.rs; the unit and integration
-- tests; and the build without the feature v2json.
pub mod Prelude
pub mod Error
pub mod Utf8
pub mod Slices
pub mod Crypto
pub mod Caveat
pub mod CaveatBuilder
pub mod Limits
pub mod Macaroon
pub mod Verifier
pub mod MacaroonBuilder
pub mod V2
pub mod V1
pub mod Base64
pub mod V2Json
pub mod Token
pub mod WasmExample
pub mod FuzzTargets
pub mod Examples
