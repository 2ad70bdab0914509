-- ===== src/Events/Lanes.antt =====
-- Admission by bytes and scheduling of the three lanes. The bounded channels are tokio's: a
-- parameter, with what its documentation says of `try_send` and `try_recv`.
mod State
mod Send
mod Receive
unfoldable pub use State.*
unfoldable pub use Send.*
unfoldable pub use Receive.*
