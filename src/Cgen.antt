-- ===== src/Cgen.antt =====
-- src/bpfilter/cgen: the generators of BPF code.
pub mod Implements
pub mod Compare
pub mod Generate
pub mod Icmp
pub mod Flavor
pub mod Ip4
pub mod Ip6
pub mod Meta
pub mod Prologue
pub mod Resolve
pub mod Rule
pub mod Set
pub mod Stub
pub mod Tcp
pub mod Udp
