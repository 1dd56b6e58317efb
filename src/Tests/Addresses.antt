-- ===== src/Tests/Addresses.antt =====
-- The address pool on concrete requests.
use bigtop.Common.{◌≡◌, refl, some, get, insert}
use bigtop.Core.Network.{ipv4}
use bigtop.Server.Ipam.{Ipam, default, allocate}
use bigtop.Server.Ipam.Search.{first_free}
use bigtop.Server.Ipam.Valid.{Valid, default-Valid, allocate-Valid}
use bigtop.Server.Ipam.Leases.{Outcome, allocate-Outcome}

abbrev pool : Ipam
pool = (allocate default "node-1" "task-1").1

pool-Valid : Valid pool
pool-Valid = allocate-Valid default "node-1" "task-1" default-Valid

second : (allocate pool "node-1" "task-2").0 ≡ some (ipv4 172 28 0 3)
unfolding default allocate get insert first_free
second = refl

allocate-Outcome_example : Outcome pool "node-2" "task-2" (allocate pool "node-2" "task-2")
allocate-Outcome_example = allocate-Outcome pool "node-2" "task-2" pool-Valid

allocate-Valid_example : Valid (allocate pool "node-2" "task-2").1
allocate-Valid_example = allocate-Valid pool "node-2" "task-2" pool-Valid
