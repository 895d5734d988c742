-- ===== src/Cluster/Member.antt =====
-- cluster/member.py: members and their status.
use advanced_distributed_sys.Base.{
  ℕ, suc, ◌&&◌, ◌∷◌, Option, Result, ok, raise, value_error, leb, if◌then◌else◌,
}
use advanced_distributed_sys.Base.Int.{ℤ, pos}
use advanced_distributed_sys.Order.{Str}

pub data MemberStatus : Type 0 where
  alive suspect dead : MemberStatus

-- the value of the `IntEnum`
abbrev pub status_value : MemberStatus → ℕ
status_value alive = 1
status_value suspect = 2
status_value dead = 3

pub record ClusterMember : Type 0 where
  pub node_id : Str
  pub host : Str
  pub port : ℕ
  pub status : MemberStatus
  pub incarnation : ℕ

-- `ClusterMember(node_id, host, port, status, incarnation)`, with the guards of `__post_init__`
unfoldable pub make_member : Str → Str → ℤ → MemberStatus → ℤ → Result ClusterMember
make_member (n ∷ ns) (h ∷ hs) (pos port) status (pos (suc i)) =
    if leb 1 port && leb port 65535
    then ok (record {
      node_id = n ∷ ns;
      host = h ∷ hs;
      port = port;
      status = status;
      incarnation = suc i;
    })
    else raise value_error
make_member _ _ _ _ _ = raise value_error

pub record SeedAddress : Type 0 where
  pub host : Str
  pub port : ℕ
  pub node_id : Option Str

-- `SeedAddress(host, port, node_id)`, with the guards of `__post_init__`
unfoldable pub make_seed : Str → ℤ → Option Str → Result SeedAddress
make_seed (h ∷ hs) (pos port) node_id =
    if leb 1 port && leb port 65535
    then ok (record { host = h ∷ hs; port = port; node_id = node_id })
    else raise value_error
make_seed _ _ _ = raise value_error
