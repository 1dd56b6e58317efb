-- ===== src/Core/Network.antt =====
-- crates/bigtop-core/src/network.rs: network requests and assignments. An octet is a number, its
-- range in the statements that need it.
use bigtop.Common.{ℕ, String, Bool, Option, List}

-- `std::net::Ipv4Addr`: the four octets.
pub record Ipv4Addr : Type 0 where
  pub o0 : ℕ
  pub o1 : ℕ
  pub o2 : ℕ
  pub o3 : ℕ

-- `Ipv4Addr::new`
abbrev pub ipv4 : ℕ → ℕ → ℕ → ℕ → Ipv4Addr
ipv4 a b c d = record { o0 = a; o1 = b; o2 = c; o3 = d }

pub record NetworkSpec : Type 0 where
  pub enabled : Bool
  pub hostname : Option String

pub record ServiceSpec : Type 0 where
  pub name : Option String
  pub discover : List String

pub record NetworkAssignment : Type 0 where
  pub ip : Ipv4Addr
  pub gateway : Ipv4Addr
  pub netmask : Ipv4Addr
