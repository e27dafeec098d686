-- ===== src/Packet/RoundTrip.antt =====
-- What `Post` sends, the decoder takes apart again.
mod Deliver
mod Accept
mod Pages
mod Message
mod Wire
pub use Deliver.*
pub use Accept.*
pub use Pages.*
pub use Message.*
pub use Wire.*
