-- ===== src/Lib.antt =====
-- go-p11-kit: a server for the RPC protocol of p11-kit, by which a client uses PKCS #11 objects
-- (keys and certificates) that a Go program holds.
--
-- A client opens a connection and sends a version byte and then messages. The server reads each
-- message into a body (a call number, a signature of the fields, the fields), dispatches on the
-- call to a handler, and writes the handler's body, or one that holds a return code, as the answer.
-- The handlers work on the slots, which all connections share, and on the connection's sessions;
-- a session has its own objects, the matches of a search and the state of a signature.
--
-- Two programs stand beside the library: errors_generate.go writes the table of the return codes,
-- and the example server makes objects of files and serves them.
--
-- The modules, and the files that they model, of p11kit/ where nothing else is said:
--   Base      lists, tests and integers that all modules share
--   Codes     calls (rpc.go), return codes (errors.go), mechanisms, attribute types and the encoding
--             of their values (attribute.go), and Names, the `String` methods of all of these
--   Result    a Go result and its error: `ckr` is a return code, which goes back to the client, and
--             `failed` any other error, which ends the connection
--   Wire      rpc.go: Buffer (the methods of `buffer`), Dates (`addDate` and `date`), Attributes
--             (`addAttribute` and `attribute`), Mechanisms (`readMechanism`), Body (the methods of
--             `body`, in Write and Read), Message (`readRequest` and `writeResponse`)
--   Token     attribute.go: Keys, Object (`Object` and its methods), Create (objects of keys and
--             certificates), Sign, Derive, Generate, and Env, the code that these call
--   Server    p11kit.go: Slot, Session, State (`handler` and its methods on slots and sessions),
--             Requests (what each handler reads), Handlers (all of the table), Loop (`Handle`),
--             Invariant, Isolation, Growth, Retention, Atomic and Multipart (the handlers taken
--             together; Keeping has what an assertion needs to outlast every request), and System
--             (several connections to one `Handler`)
--   ErrorsGenerate  errors_generate.go: Raw (the definitions), Template, and the loop, Lines
--   ExampleServer   example/example-p11-kit-server/main.go: Outside (what it calls), Keys (`privEqual`
--             and the like), Files (the loops over files), Main, and what becomes of the objects in
--             Attached, Held, Made, Loaded, Completes, Serving and Withheld
--   Examples  the theorems at concrete values
--
-- How the model corresponds to the code. A definition has the name of its function in snake case.
-- Bytes and machine integers are natural numbers, with wrap-around written out. A method that
-- changes its receiver returns the new value: a reader of a buffer returns the rest of the bytes,
-- a reader of a body the body that it leaves, and a method of the handler the connection's state,
-- which it leaves changed also where it fails. A stream is the list of the bytes that come before
-- its end. A nil slice is `none` where the code tells it from an empty one.
--
-- What the code calls and does not implement (signing, key generation, hashes, curve arithmetic,
-- ASN.1, randomness, a slot's callbacks) is the record `Token.Env.Env`. What happens around a
-- connection is `Server.Loop.World`: an `Env` for each request, what other connections have done
-- to the slots by then, and which writes succeed. A request runs as one step, so that other
-- connections' changes come between requests and not within one.
--
-- Fuel and bounds. The loop of `Handle` has as much fuel as the stream has bytes and one more, and
-- each round takes a byte at least; the search for a session ID has one more round than there are
-- sessions; the key derivation has as many rounds as bytes are asked for; the normalisation of a
-- date has as many as days; the digits of a number have as many as a uint64 has. Memory is not
-- bounded, but for the slice of `resizeSecret`, whose length a client chooses: beyond 2^48 bytes
-- it panics. A message whose lengths exceed the memory is one whose stream ends early.
--
-- Not modelled: text that only goes to the log or to a terminal, locks, and the parsing of flags.
-- In ExampleServer, files, PEM, X.509 and the socket are the record `Outside`; the goroutines are
-- the moves of Server.System, of which there are no more once a connection cannot be accepted. In
-- ErrorsGenerate, go/format is a parameter.
pub mod Base
pub mod Codes
pub mod Result
pub mod Wire
pub mod Token
pub mod Server
pub mod ErrorsGenerate
pub mod ExampleServer
pub mod Examples
