-- ===== src/Netip.antt =====
-- IPv4 addresses, prefixes and decimal numbers as Go's net/netip and strconv have them, as far as
-- the program uses them. An IPv4 address is its 32-bit number; every caller in the program refuses
-- an IPv6 address beside a text that does not parse, so the parsers answer `none` for both.
pub mod Parse
pub mod Prefix
pub mod Blocks
pub mod Number
pub mod Cut
mod Tests
pub use Parse.*
pub use Prefix.*
