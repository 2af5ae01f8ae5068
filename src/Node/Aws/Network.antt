-- ===== src/Node/Aws/Network.antt =====
-- provider/aws/ec2.go: `ResolveOrCreateNetworkConfig`, the network of the nodes that name none. The
-- EC2 API, which is no code of the repository, is an interface over any state of the cloud.
use public_cloud_vm_provisio.Prelude.{
  ℕ, String, Bool, true, false, ◌&&◌, Option, none, some, List, [], ◌∷◌, ◌++◌, ◌==◌, eqb,
  if◌then◌else◌, any,
}
use public_cloud_vm_provisio.Node.Aws.{NetworkConfig}

-- `types.IpPermission`; a port below 0 counts as none.
pub record IpPermission : Type 0 where
  pub proto : Option String
  pub from_port : Option ℕ
  pub to_port : Option ℕ
  pub ranges : List String

-- How `AuthorizeSecurityGroupIngress` ends
pub data Authorization : Type 0 where
  authorized : Authorization
  duplicate : Authorization
  denied : Authorization

abbrev pub Group : Type 0
Group = String × List IpPermission

-- The calls; `none` for an error. Subnets are asked for by VPC, by zone if there is one, and
-- whether only the zones' default ones count.
pub record Ec2Api (C : Type 0) : Type 0 where
  pub default_vpcs : C → Option (List String)
  pub create_default_vpc : C → C × Option String
  pub subnets : C → String → String → Bool → Option (List String)
  pub default_groups : C → String → Option (List Group)
  pub authorize : String → List IpPermission → C → C × Authorization

abbrev pub is_some_of : String → Option String → Bool
is_some_of s none = false
is_some_of s (some t) = t == s

abbrev pub is_port : ℕ → Option ℕ → Bool
is_port n none = false
is_port n (some m) = eqb m n

-- A permission by which `present` has the rule
unfoldable pub permits : String → ℕ → IpPermission → Bool
permits proto port perm =
    is_some_of proto perm.proto
    && is_port port perm.from_port
    && is_port port perm.to_port
    && any (λ r. r == "0.0.0.0/0") perm.ranges

abbrev pub rule : String → ℕ → IpPermission
rule proto port = record {
  proto = some proto;
  from_port = some port;
  to_port = some port;
  ranges = "0.0.0.0/0" ∷ [];
}

unfoldable pub needed : String → ℕ → List IpPermission → List IpPermission
unfolding permits
needed proto port existing = if any (permits proto port) existing then [] else rule proto port ∷ []

-- `toAdd`
unfoldable pub to_add : List IpPermission → List IpPermission
unfolding needed
to_add existing = needed "tcp" 22 existing ++ needed "udp" 51820 existing

unfoldable pub pick_subnet : Option (List String) → Option (List String) → Option String
pick_subnet none all = none
pick_subnet (some (id ∷ more)) all = some id
pick_subnet (some []) none = none
pick_subnet (some []) (some []) = none
pick_subnet (some []) (some (id ∷ more)) = some id

module _ {C : Type 0} (api : Ec2Api C) where
  -- `ensureNodeIngressRules`; its error is only logged.
  unfoldable pub authorize_missing : String → List IpPermission → C → C
  authorize_missing id [] c = c
  authorize_missing id (perm ∷ perms) c = (api.authorize id (perm ∷ perms) c).0

  unfoldable pub ensure_node_ingress_rules : String → List IpPermission → C → C
  unfolding authorize_missing to_add
  ensure_node_ingress_rules id existing c = authorize_missing id (to_add existing) c

  -- `ensureDefaultVPC`, on the default VPCs that are there
  unfoldable pub ensure_default_vpc : Option (List String) → C → C × Option String
  ensure_default_vpc none c = (c, none)
  ensure_default_vpc (some (id ∷ more)) c = (c, some id)
  ensure_default_vpc (some []) c = api.create_default_vpc c

  -- `resolveDefaultSubnet`: the first default subnet, or the first subnet at all
  unfoldable pub resolve_default_subnet : C → String → String → Option String
  unfolding pick_subnet
  resolve_default_subnet c vpc zone =
      pick_subnet (api.subnets c vpc zone true) (api.subnets c vpc zone false)

  -- `resolveDefaultSecurityGroup` on the default groups of the VPC, and the answer
  unfoldable pub with_groups : String → String → Option (List Group) → C → C × Option NetworkConfig
  unfolding ensure_node_ingress_rules
  with_groups vpc subnet none c = (c, none)
  with_groups vpc subnet (some []) c = (c, none)
  with_groups vpc subnet (some ((id, perms) ∷ more)) c = (
    ensure_node_ingress_rules id perms c,
    some (record { vpc_id = vpc; subnet_id = subnet; security_group_id = id }),
  )

  unfoldable pub with_subnet : String → Option String → C → C × Option NetworkConfig
  unfolding with_groups
  with_subnet vpc none c = (c, none)
  with_subnet vpc (some subnet) c = with_groups vpc subnet (api.default_groups c vpc) c

  unfoldable pub with_vpc : String → C × Option String → C × Option NetworkConfig
  unfolding resolve_default_subnet with_subnet
  with_vpc zone (c, none) = (c, none)
  with_vpc zone (c, some vpc) = with_subnet vpc (resolve_default_subnet c vpc zone) c

  -- `ResolveOrCreateNetworkConfig`, from the EC2 client on
  unfoldable pub resolve_or_create_network_config : String → C → C × Option NetworkConfig
  unfolding ensure_default_vpc with_vpc
  resolve_or_create_network_config zone c =
      with_vpc zone (ensure_default_vpc (api.default_vpcs c) c)
