-- ===== src/ExampleServer.antt =====
-- example/example-p11-kit-server: a server of the keys and the certificates of some files.
pub mod Outside
pub mod Keys
pub mod Files
pub mod Held
pub mod Main
pub mod Attached
pub mod Made
pub mod Loaded
pub mod Serving
pub mod Withheld
pub mod Completes
