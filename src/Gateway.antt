-- ===== src/Gateway.antt =====
-- gateway/crates/sentin-proxy/src/lib.rs: the handler of one request. Headers says what crosses the
-- boundary, Names what an audit event calls the destination, Handler is `proxy` and `relay`, and
-- Policy the decision that the handler implements, with the theorems on it in Laws; Total is about its panics.
pub mod Headers
pub mod Names
pub mod Handler
pub mod Policy
pub mod Laws
pub mod Total
