-- ===== src/MyIp.antt =====
-- `get_my_ip` of src/common/utils.cpp: which node of the cluster this machine is. The addresses of
-- the machine are an argument, which `get_all_ips` makes of what the system answers.
pub mod Least
use spkdfs.Prelude.{
  Bool, true, false, Option, none, some, List, [], ◌∷◌, map, any, keep_if, if◌then◌else◌,
}
use spkdfs.Exn.{Text, Result, ok, throw, runtime_error}
use spkdfs.Text.{same_text, text_lt, codes}
use spkdfs.Node.{Node}

-- An entry of `getifaddrs`: its address, if it has one, and whether this is one of IPv4.
pub record Interface : Type 0 where
  pub ifa_addr : Option Text
  pub is_inet : Bool

abbrev kept_address : Interface → Option Text → List Text → List Text
kept_address entry none rest = rest
kept_address entry (some addr) rest = if entry.is_inet then addr ∷ rest else rest

-- The addresses of the loop; as a set they count once, which the intersection does not see.
unfoldable pub inet_addresses : List Interface → List Text
inet_addresses [] = []
inet_addresses (entry ∷ entries) =
    let rest = inet_addresses entries in kept_address entry entry.ifa_addr rest

-- `none` where `getifaddrs` returns -1.
unfoldable pub get_all_ips : Option (List Interface) → Result (List Text)
unfolding inet_addresses
get_all_ips none = throw (runtime_error (codes "get_all_ips getifaddrs failed"))
get_all_ips (some interfaces) = ok (inet_addresses interfaces)

-- `set_intersection` of the two sets, as a list of the addresses of the nodes that are local.
unfoldable pub intersection : List Text → List Text → List Text
intersection nodes local = keep_if (λ ip. any (λ l. same_text l ip) local) nodes

-- `*(intersection.begin())`: a set is ordered by bytes.
unfoldable pub least : Text → List Text → Text
least ip [] = ip
least ip (next ∷ ips) = let rest = least ip ips in if text_lt next rest then next else rest

or_no_ip : List Text → Result Text
unfolding least
or_no_ip [] = throw (runtime_error (codes "cannot find equal ips"))
or_no_ip (ip ∷ ips) = ok (least ip ips)

unfoldable pub get_my_ip : List Text → List Node → Result Text
unfolding or_no_ip intersection
get_my_ip local vec = or_no_ip (intersection (map (λ (node : Node). node.ip) vec) local)
