-- ===== src/CloudFormation/Balancers.antt =====
-- The load balancers of an exposed process (the part of `addService` in
-- scheduler/cloudformation/template.go under `if p.Exposure != nil`).
use empire.Prelude.{
  Bool, true, false, Option, none, some, List, [], ◌∷◌, ◌++◌, map, ◌||◌, ltb, length, if◌then◌else◌,
}
use empire.Prelude.Int.{ℤ, pos, eqb_ℤ}
use empire.Prelude.Text.{Text, codes, text_eq}
use empire.Prelude.Text.Decimal.{format_nat, format_int}
use empire.Twelvefactor.{Manifest, Process, Port, Protocol, Exposure, http, https, tcp, ssl}
use empire.Troposphere.{
  Value, Resource, failed, nil_dereference, out_of_range, null, str, num, bool, list_of, map_of,
  ref, get_att, plain_resource,
}
use empire.Troposphere.Builder.{Builder, pure, fail, required, put, add, ◌>>=◌}
use empire.CloudFormation.{
  EmpireTemplate, HostedZone, Tag, load_balancer_type, application_load_balancer,
  process_resource_name, tags_from_labels, expand_arn, fmt_ports,
}
use empire.CloudFormation.Containers.{PortMapping, texts}

-- The scheme, the security group and the subnets.
pub record Placing : Type 0 where
  pub scheme : Text
  pub group : Text
  pub subnets : List Text

unfoldable pub placing : EmpireTemplate → Bool → Placing
placing t true = record {
  scheme = codes "internet-facing";
  group = t.external_security_group_id;
  subnets = t.external_subnet_ids;
}
placing t false = record {
  scheme = codes "internal";
  group = t.internal_security_group_id;
  subnets = t.internal_subnet_ids;
}

-- What the service takes from its load balancer.
pub record Balanced : Type 0 where
  pub port_mappings : List PortMapping
  pub dependencies : List Text
  pub load_balancers : List Value

-- The load balancer by its name and the attribute that holds its hosted zone.
pub record Balancer : Type 0 where
  pub balancer_name : Text
  pub zone_attribute : Text
  pub balanced : Balanced

unfoldable pub tag_value : Tag → Value
tag_value tag = map_of ((codes "Key", str tag.key) ∷ (codes "Value", str tag.value) ∷ [])

unfoldable pub tag_values : List Tag → Value
unfolding tag_value
tag_values tags = list_of (map tag_value tags)

-- `containerPorts[c]`
unfoldable pub is_seen : ℤ → List ℤ → Bool
is_seen c [] = false
is_seen c (d ∷ seen) = eqb_ℤ d c || is_seen c seen

-- The container ports, each once, behind those that were seen.
unfoldable pub unique_ports : List ℤ → List Port → List ℤ
unique_ports seen [] = []
unique_ports seen (port ∷ ports) =
    let skipped = unique_ports seen ports in
    let taken = unique_ports (port.container ∷ seen) ports in
    if is_seen port.container seen then skipped else port.container ∷ taken

unfoldable pub dynamic_mapping : ℤ → PortMapping
dynamic_mapping c = record { container_port = num c; host_port = num (pos 0) }

unfoldable pub forward : Text → Value
forward target_group = list_of (
    map_of ((codes "TargetGroupArn", ref target_group) ∷ (codes "Type", str (codes "forward")) ∷ [])
    ∷ [])

unfoldable pub certificate : Text → Value
certificate cert = expand_arn (codes ":server-certificate/") cert

-- The listener of a port, for the protocols of an Application Load Balancer.
unfoldable pub listener_resource : Text → Text → Port → Protocol → Builder Resource
unfolding forward certificate
listener_resource balancer target_group port http = pure (
    plain_resource (codes "AWS::ElasticLoadBalancingV2::Listener") (
      map_of (
        (codes "LoadBalancerArn", ref balancer)
        ∷ (codes "Port", num port.host)
        ∷ (codes "Protocol", str (codes "HTTP"))
        ∷ (codes "DefaultActions", forward target_group)
        ∷ [])))
listener_resource balancer target_group port (https cert) = pure (
    plain_resource (codes "AWS::ElasticLoadBalancingV2::Listener") (
      map_of (
        (
          codes "Certificates",
          list_of (map_of ((codes "CertificateArn", certificate cert) ∷ []) ∷ []),
        )
        ∷ (codes "LoadBalancerArn", ref balancer)
        ∷ (codes "Port", num port.host)
        ∷ (codes "Protocol", str (codes "HTTPS"))
        ∷ (codes "DefaultActions", forward target_group)
        ∷ [])))
listener_resource balancer target_group port tcp =
    fail (failed (codes "tcp listeners are not supported with AWS Application Load Balancing"))
listener_resource balancer target_group port (ssl cert) =
    fail (failed (codes "ssl listeners are not supported with AWS Application Load Balancing"))

unfoldable pub listener_name : Text → Port → Text
listener_name balancer port =
    balancer ++ (codes "Port" ++ (format_int port.host ++ codes "Listener"))

-- The listener of one port; its name.
unfoldable pub add_listener : Text → Text → Port → Builder Text
unfolding listener_resource
add_listener balancer target_group port = required nil_dereference port.protocol >>= λ protocol.
    listener_resource balancer target_group port protocol >>= λ resource.
    add (listener_name balancer port) resource >>= λ _. pure (listener_name balancer port)

-- The loop that adds a listener for each port, and returns their names.
unfoldable pub add_listeners : Text → Text → List Port → Builder (List Text)
add_listeners balancer target_group [] = pure []
add_listeners balancer target_group (port ∷ ports) =
    add_listener balancer target_group port >>= λ name.
    add_listeners balancer target_group ports >>= λ names. pure (name ∷ names)

-- The text of the error has the number of all the ports.
unfoldable pub too_many_ports : List Port → Text
too_many_ports ports =
    codes "AWS Application Load Balancers can only map listeners to a single container port. "
    ++ (format_nat (length ports)
        ++ (codes " unique container ports were defined: [" ++ (fmt_ports ports ++ codes "]")))

unfoldable pub single_port : List Port → Builder Unit
unfolding too_many_ports
single_port ports =
    if ltb 1 (length (unique_ports [] ports)) then fail (failed (too_many_ports ports)) else pure tt

-- `p.Exposure.Ports[0].Container`
unfoldable pub first_port : List Port → Option ℤ
first_port [] = none
first_port (port ∷ ports) = some port.container

unfoldable pub target_group_resource : EmpireTemplate → List Tag → Resource
target_group_resource t tags = plain_resource (codes "AWS::ElasticLoadBalancingV2::TargetGroup") (
    map_of (
      (codes "Port", num (pos 65535))
      ∷ (codes "Protocol", str (codes "HTTP"))
      ∷ (codes "VpcId", str t.vpc_id)
      ∷ (codes "Tags", tag_values tags)
      ∷ []))

unfoldable pub application_resource : Placing → List Tag → Resource
application_resource at tags = plain_resource (codes "AWS::ElasticLoadBalancingV2::LoadBalancer") (
    map_of (
      (codes "Scheme", str at.scheme)
      ∷ (codes "SecurityGroups", texts (at.group ∷ []))
      ∷ (codes "Subnets", texts at.subnets)
      ∷ (codes "Tags", tag_values tags)
      ∷ []))

-- The branch of `applicationLoadBalancer`.
unfoldable pub add_application_balancer :
    EmpireTemplate → Process → Placing → List Port → List Tag → Builder Balancer
unfolding application_resource target_group_resource single_port first_port dynamic_mapping
add_application_balancer t p at ports tags =
    let key = process_resource_name p.process_type in
    let name = key ++ codes "ApplicationLoadBalancer" in
    let target_group = key ++ codes "TargetGroup" in
    add name (application_resource at tags) >>= λ _.
    put target_group (target_group_resource t tags) >>= λ _. single_port ports >>= λ _.
    add_listeners name target_group ports >>= λ names.
    required out_of_range (first_port ports) >>= λ container. pure (record {
      balancer_name = name;
      zone_attribute = codes "CanonicalHostedZoneID";
      balanced = record {
        port_mappings = map dynamic_mapping (unique_ports [] ports);
        dependencies = names;
        load_balancers =
            map_of (
              (codes "ContainerName", str p.process_type)
              ∷ (codes "ContainerPort", num container)
              ∷ (codes "TargetGroupArn", ref target_group)
              ∷ [])
            ∷ [];
      };
    })

-- `instancePorts`: the names of the resources by their container port
-- `instancePorts[c].Name`, of the zero value where there is none
unfoldable pub port_name : ℤ → List (ℤ × Text) → Text
port_name c [] = []
port_name c ((d, name) ∷ m) = if eqb_ℤ d c then name else port_name c m

unfoldable pub instance_port : EmpireTemplate → Resource
instance_port t = record {
  condition = null;
  depends_on = null;
  properties = map_of ((codes "ServiceToken", str t.custom_resources_topic) ∷ []);
  resource_type = str (codes "Custom::InstancePort");
  version = str (codes "1.0");
}

unfoldable pub instance_port_name : Text → ℤ → Text
instance_port_name key c = key ++ (format_int c ++ codes "InstancePort")

-- The loop that adds the instance ports, one for each container port.
unfoldable pub add_instance_ports : EmpireTemplate → Text → List ℤ → Builder (List (ℤ × Text))
unfolding instance_port
add_instance_ports t key [] = pure []
add_instance_ports t key (c ∷ cs) = add (instance_port_name key c) (instance_port t) >>= λ _.
    add_instance_ports t key cs >>= λ m. pure ((c, instance_port_name key c) ∷ m)

unfoldable pub instance_mapping : ℤ × Text → PortMapping
instance_mapping (c, name) = record {
  container_port = num c;
  host_port = get_att name (codes "InstancePort");
}

unfoldable pub listener_value : Port → Value → Text → Text → List (Text × Value) → Value
listener_value port instance protocol inner certs = map_of (
    (codes "LoadBalancerPort", num port.host)
    ∷ (codes "Protocol", str protocol)
    ∷ (codes "InstancePort", instance)
    ∷ (codes "InstanceProtocol", str inner)
    ∷ certs)

unfoldable pub classic_listener : Port → Value → Protocol → Value
unfolding listener_value certificate
classic_listener port i tcp = listener_value port i (codes "tcp") (codes "tcp") []
classic_listener port i (ssl cert) =
    listener_value port i (codes "ssl") (codes "tcp")
      ((codes "SSLCertificateId", certificate cert) ∷ [])
classic_listener port i http = listener_value port i (codes "http") (codes "http") []
classic_listener port i (https cert) =
    listener_value port i (codes "https") (codes "http")
      ((codes "SSLCertificateId", certificate cert) ∷ [])

-- A port without a protocol has no listener.
unfoldable pub classic_listeners : List (ℤ × Text) → List Port → List Value
unfolding classic_listener
classic_listeners m [] = []
classic_listeners m (port ∷ ports) =
    let rest = classic_listeners m ports in
    let i = get_att (port_name port.container m) (codes "InstancePort") in
    elim port.protocol [ none ↦ rest | some protocol ↦ classic_listener port i protocol ∷ rest ]

unfoldable pub classic_resource : Placing → List Value → List Tag → Resource
classic_resource at listeners tags =
    plain_resource (codes "AWS::ElasticLoadBalancing::LoadBalancer") (
      map_of (
        (codes "Scheme", str at.scheme)
        ∷ (codes "SecurityGroups", texts (at.group ∷ []))
        ∷ (codes "Subnets", texts at.subnets)
        ∷ (codes "Listeners", list_of listeners)
        ∷ (codes "CrossZone", bool true)
        ∷ (codes "Tags", tag_values tags)
        ∷ (
          codes "ConnectionDrainingPolicy",
          map_of ((codes "Enabled", bool true) ∷ (codes "Timeout", num (pos 30)) ∷ []),
        )
        ∷ []))

-- The branch of the classic load balancers.
unfoldable pub add_classic_balancer :
    EmpireTemplate → Process → Placing → List Port → List Tag → Builder Balancer
unfolding classic_resource instance_mapping first_port
add_classic_balancer t p at ports tags =
    let key = process_resource_name p.process_type in
    let name = key ++ codes "LoadBalancer" in
    add_instance_ports t key (unique_ports [] ports) >>= λ m.
    add name (classic_resource at (classic_listeners m ports) tags) >>= λ _.
    required out_of_range (first_port ports) >>= λ container. pure (record {
      balancer_name = name;
      zone_attribute = codes "CanonicalHostedZoneNameID";
      balanced = record {
        port_mappings = map instance_mapping m;
        dependencies = [];
        load_balancers =
            map_of (
              (codes "ContainerName", str p.process_type)
              ∷ (codes "ContainerPort", num container)
              ∷ (codes "LoadBalancerName", ref name)
              ∷ [])
            ∷ [];
      };
    })

unfoldable pub record_set : List (Text × Value) → Resource
record_set properties = record {
  condition = str (codes "DNSCondition");
  depends_on = null;
  properties = map_of properties;
  resource_type = str (codes "AWS::Route53::RecordSet");
  version = null;
}

unfoldable pub alias_resource : Manifest → Process → HostedZone → Balancer → Resource
unfolding record_set
alias_resource app p zone b = record_set (
    (codes "HostedZoneId", str zone.id)
    ∷ (codes "Name", str (p.process_type ++ (codes "." ++ (app.name ++ (codes "." ++ zone.name)))))
    ∷ (codes "Type", str (codes "A"))
    ∷ (
      codes "AliasTarget",
      map_of (
          (codes "DNSName", get_att b.balancer_name (codes "DNSName"))
          ∷ (codes "EvaluateTargetHealth", str (codes "true"))
          ∷ (codes "HostedZoneId", get_att b.balancer_name b.zone_attribute)
          ∷ []),
    )
    ∷ [])

unfoldable pub cname_resource : Manifest → HostedZone → Balancer → Resource
unfolding record_set
cname_resource app zone b = record_set (
    (codes "HostedZoneId", str zone.id)
    ∷ (codes "Name", str (app.name ++ (codes "." ++ zone.name)))
    ∷ (codes "Type", str (codes "CNAME"))
    ∷ (codes "TTL", num (pos 60))
    ∷ (codes "ResourceRecords", list_of (get_att b.balancer_name (codes "DNSName") ∷ []))
    ∷ [])

-- The alias of the load balancer, and the CNAME of a "web" process.
unfoldable pub add_records : Manifest → Process → HostedZone → Balancer → Builder Unit
unfolding alias_resource cname_resource
add_records app p zone b =
    add (process_resource_name p.process_type ++ codes "Alias") (alias_resource app p zone b)
    >>= λ _.
        if text_eq p.process_type (codes "web")
        then put (codes "CNAME") (cname_resource app zone b)
        else pure tt

unfoldable pub add_balancer :
    EmpireTemplate → Manifest → Process → Exposure → List Tag → Builder Balancer
unfolding placing
add_balancer t app p exposure stack_tags =
    let tags = tags_from_labels p.labels in
    let at = placing t exposure.external in
    if text_eq (load_balancer_type app p) application_load_balancer
    then add_application_balancer t p at exposure.ports (stack_tags ++ tags)
    else add_classic_balancer t p at exposure.ports tags

unfoldable pub expose : EmpireTemplate → Manifest → Process → Exposure → List Tag → Builder Balanced
unfolding add_balancer
expose t app p exposure stack_tags = add_balancer t app p exposure stack_tags >>= λ b.
    required nil_dereference t.hosted_zone >>= λ zone.
    add_records app p zone b >>= λ _. pure b.balanced

-- `if p.Exposure != nil { ... }`
unfoldable pub add_exposure :
    EmpireTemplate → Manifest → Process → Option Exposure → List Tag → Builder Balanced
unfolding expose
add_exposure t app p none stack_tags =
    pure (record { port_mappings = []; dependencies = []; load_balancers = [] })
add_exposure t app p (some exposure) stack_tags = expose t app p exposure stack_tags
