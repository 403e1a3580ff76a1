-- ===== src/CloudFormation/Closed/Balancers.antt =====
-- What the load balancers and the records of an exposed process refer to.
use empire.Prelude.{
  ◌≡◌, refl, inl, inr, Bool, true, false, ◌||◌, Option, none, some, List, [], ◌∷◌, map, arith, ltb,
  Bool-cases, Option-cases, length, All, All-append,
}
use empire.Prelude.Int.{ℤ, eqb_ℤ, eqb_ℤ_iff}
use empire.Prelude.Text.{Text, codes, text_eq}
use mathlib.Core.Bool.{false≢true}
use empire.Twelvefactor.{Manifest, Process, Port, Protocol, Exposure, http, https, tcp, ssl}
use empire.Troposphere.{Value, list_of, items, ref, get_att, failed, nil_dereference, out_of_range}
use empire.Troposphere.References.{references, item_references, intrinsic, target}
use empire.Troposphere.Builder.{pure, fail}
use empire.Troposphere.Closed.{ResourceClosed, names_of, Grows}
use empire.Troposphere.Rules.{
  Safe, grows_rules, Grows-bind, Grows-add, Grows-pure, Safe-put, Safe-add, Safe-bind, Safe-pure,
  Safe-if, Safe-weaken, Safe-fail, Safe-required,
}
use empire.CloudFormation.{
  EmpireTemplate, HostedZone, Tag, load_balancer_type, application_load_balancer,
}
use empire.CloudFormation.Containers.{PortMapping, texts}
use empire.CloudFormation.Balancers.{
  Placing, Balanced, Balancer, tag_value, tag_values, is_seen, unique_ports, dynamic_mapping,
  forward, certificate, listener_resource, listener_name, add_listener, add_listeners, single_port,
  too_many_ports, first_port, target_group_resource, application_resource, add_application_balancer,
  port_name, instance_port, add_instance_ports, instance_mapping, listener_value, classic_listener,
  classic_listeners, classic_resource, add_classic_balancer, record_set, alias_resource,
  cname_resource, add_records, add_balancer, expose, add_exposure,
}
use empire.CloudFormation.Closed.{IsLocal, All-get_att, All-expand_arn, IsLocal-items}
use empire.CloudFormation.Closed.Containers.{IsLocal-texts}

All-weaken :
    {A : Type 0} {P Q : A → Type 0} (xs : List A) → ((x : A) → P x → Q x) → All P xs → All Q xs
All-weaken [] w h = tt
All-weaken (x ∷ xs) w (p, h) = (w x p, All-weaken xs w h)

unique_ports-seen :
    (seen : List ℤ) (port : Port) (ports : List Port)
    → is_seen port.container seen ≡ true
    → unique_ports seen (port ∷ ports) ≡ unique_ports seen ports
unfolding unique_ports
unique_ports-seen seen port ports e = rw e

unique_ports-new :
    (seen : List ℤ) (port : Port) (ports : List Port)
    → is_seen port.container seen ≡ false
    → unique_ports seen (port ∷ ports) ≡ port.container ∷ unique_ports (port.container ∷ seen) ports
unfolding unique_ports
unique_ports-new seen port ports e = rw e

is_seen-moved :
    (c d : ℤ) (seen cs : List ℤ)
    → (is_seen c (d ∷ seen) || is_seen c cs) ≡ true
    → (is_seen c seen || is_seen c (d ∷ cs)) ≡ true
unfolding is_seen
is_seen-moved c d seen cs h = rotate (eqb_ℤ d c) (is_seen c seen) (is_seen c cs) h
  where
    rotate : (x y z : Bool) → ((x || y) || z) ≡ true → (y || (x || z)) ≡ true
    rotate true true z h = refl
    rotate true false z h = refl
    rotate false y z h = h

-- The container port of every port is there, or was seen before.
All-unique_ports :
    (seen : List ℤ) (ports : List Port)
    → All
        (λ (port : Port).
          (is_seen port.container seen || is_seen port.container (unique_ports seen ports)) ≡ true)
        ports
All-unique_ports seen [] = tt
All-unique_ports seen (port ∷ ports) = elim (Bool-cases (is_seen port.container seen)) [
  | inl e ↦ (
    rw e refl,
    All-weaken ports (λ other h. rw (unique_ports-seen seen port ports e) h)
        (All-unique_ports seen ports),
  )
  | inr e ↦ (
    rw (unique_ports-new seen port ports e)
        (unfold is_seen in ground (arith, eqb_ℤ_iff port.container port.container)),
    All-weaken ports
        (λ other h.
          rw (unique_ports-new seen port ports e)
            (is_seen-moved other.container port.container seen _ h))
        (All-unique_ports (port.container ∷ seen) ports),
  )
]

IsLocal-tag_values : (tags : List Tag) → IsLocal (tag_values tags)
unfolding tag_values tag_value references intrinsic
IsLocal-tag_values tags = IsLocal-items tag_value tags (λ tag. refl)

-- The names and the values that the service takes are known.
pub record BalancedClosed (K : Text → Type 0) (b : Balanced) : Type 0 where
  pub mappings :
      All
        (λ (m : PortMapping). IsLocal m.container_port × All K (references m.host_port))
        b.port_mappings
  pub dependencies_known : All K b.dependencies
  pub balancers : All K (references (list_of b.load_balancers))

pub record BalancerClosed (K : Text → Type 0) (b : Balancer) : Type 0 where
  pub named : K b.balancer_name
  pub used : BalancedClosed K b.balanced

Grows-listener_resource :
    (balancer target_group : Text) (port : Port) (protocol : Protocol)
    → Grows (listener_resource balancer target_group port protocol)
unfolding listener_resource
Grows-listener_resource balancer target_group port http = search (grows_rules)
Grows-listener_resource balancer target_group port (https cert) = search (grows_rules)
Grows-listener_resource balancer target_group port tcp = search (grows_rules)
Grows-listener_resource balancer target_group port (ssl cert) = search (grows_rules)

Grows-add_listener :
    (balancer target_group : Text) (port : Port) → Grows (add_listener balancer target_group port)
unfolding add_listener
Grows-add_listener balancer target_group port = search (grows_rules, Grows-listener_resource)

Grows-add_listeners :
    (balancer target_group : Text) (ports : List Port)
    → Grows (add_listeners balancer target_group ports)
unfolding add_listeners
Grows-add_listeners balancer target_group [] = search (grows_rules)
Grows-add_listeners balancer target_group (port ∷ ports) =
    Grows-bind _ _ (Grows-add_listener balancer target_group port)
      λ _. Grows-bind _ _ (Grows-add_listeners balancer target_group ports) λ _. Grows-pure _

Grows-add_instance_ports :
    (t : EmpireTemplate) (key : Text) (cs : List ℤ) → Grows (add_instance_ports t key cs)
unfolding add_instance_ports
Grows-add_instance_ports t key [] = search (grows_rules)
Grows-add_instance_ports t key (c ∷ cs) =
    Grows-bind _ _ (Grows-add _ _)
      λ _. Grows-bind _ _ (Grows-add_instance_ports t key cs) λ _. Grows-pure _

Grows-single_port : (ports : List Port) → Grows (single_port ports)
unfolding single_port
Grows-single_port ports = search (grows_rules)

Grows-add_application_balancer :
    (t : EmpireTemplate) (p : Process) (at : Placing) (ports : List Port) (tags : List Tag)
    → Grows (add_application_balancer t p at ports tags)
unfolding add_application_balancer
Grows-add_application_balancer t p at ports tags =
    search (grows_rules, Grows-add_listeners, Grows-single_port) depth 12

Grows-add_classic_balancer :
    (t : EmpireTemplate) (p : Process) (at : Placing) (ports : List Port) (tags : List Tag)
    → Grows (add_classic_balancer t p at ports tags)
unfolding add_classic_balancer
Grows-add_classic_balancer t p at ports tags = search (grows_rules, Grows-add_instance_ports)

Grows-add_records :
    (app : Manifest) (p : Process) (zone : HostedZone) (b : Balancer)
    → Grows (add_records app p zone b)
unfolding add_records
Grows-add_records app p zone b = search (grows_rules)

pub Grows-add_exposure :
    (t : EmpireTemplate) (app : Manifest) (p : Process) (e : Option Exposure) (tags : List Tag)
    → Grows (add_exposure t app p e tags)
unfolding add_exposure expose add_balancer
Grows-add_exposure t app p none tags = search (grows_rules)
Grows-add_exposure t app p (some exposure) tags =
    search
      (grows_rules, Grows-add_application_balancer, Grows-add_classic_balancer, Grows-add_records)

module _ (K C : Text → Type 0) (account : K (codes "AWS::AccountId")) where
  ResourceClosed-application :
      (at : Placing) (tags : List Tag) → ResourceClosed K C (application_resource at tags)
  unfolding application_resource references intrinsic names_of
  ResourceClosed-application at tags =
      (rw (IsLocal-texts at.subnets, IsLocal-tag_values tags) (unfold texts in tt), tt, tt)

  ResourceClosed-target_group :
      (t : EmpireTemplate) (tags : List Tag) → ResourceClosed K C (target_group_resource t tags)
  unfolding target_group_resource references intrinsic names_of
  ResourceClosed-target_group t tags = (rw (IsLocal-tag_values tags) tt, tt, tt)

  Safe-listener_resource :
      (balancer target_group : Text) (port : Port) (protocol : Protocol)
      → K balancer
      → K target_group
      → Safe K C (ResourceClosed K C) (listener_resource balancer target_group port protocol)
  unfolding listener_resource references intrinsic names_of target ref forward text_eq certificate
  Safe-listener_resource balancer target_group port http b g = Safe-pure _ ((b, (g, tt)), tt, tt)
  Safe-listener_resource balancer target_group port (https cert) b g =
      let cert_known = All-expand_arn K (codes ":server-certificate/") cert account in
      Safe-pure _ (
        All-append K _ (balancer ∷ target_group ∷ [])
            (All-append K _ [] (All-append K _ [] cert_known tt) tt) (b, (g, tt)),
        tt,
        tt,
      )
  Safe-listener_resource balancer target_group port tcp b g = Safe-fail _
  Safe-listener_resource balancer target_group port (ssl cert) b g = Safe-fail _

  Safe-add_listener :
      (balancer target_group : Text) (port : Port)
      → K balancer
      → K target_group
      → Safe K C K (add_listener balancer target_group port)
  unfolding add_listener
  Safe-add_listener balancer target_group port b g =
      Safe-bind _ _ (Safe-required {Q = λ _. Unit} nil_dereference port.protocol (λ _. tt))
        (λ _. search (grows_rules, Grows-listener_resource))
        λ protocol _.
          Safe-bind _ _ (Safe-listener_resource balancer target_group port protocol b g)
            (λ _. search (grows_rules))
            λ resource r.
              Safe-bind _ _ (Safe-add (listener_name balancer port) resource (λ _. r))
                (λ _. search (grows_rules)) λ _ n. Safe-pure _ n

  Safe-add_listeners :
      (balancer target_group : Text) (ports : List Port)
      → K balancer
      → K target_group
      → Safe K C (All K) (add_listeners balancer target_group ports)
  unfolding add_listeners
  Safe-add_listeners balancer target_group [] b g = Safe-pure _ tt
  Safe-add_listeners balancer target_group (port ∷ ports) b g =
      Safe-bind _ _ (Safe-add_listener balancer target_group port b g)
        (λ _. Grows-bind _ _ (Grows-add_listeners balancer target_group ports) λ _. Grows-pure _)
        λ name n.
          Safe-bind _ _ (Safe-add_listeners balancer target_group ports b g) (λ _. Grows-pure _)
            λ names h. Safe-pure _ (n, h)

  All-dynamic_mapping :
      (cs : List ℤ)
      → All
          (λ (m : PortMapping). IsLocal m.container_port × All K (references m.host_port))
          (map dynamic_mapping cs)
  unfolding dynamic_mapping references
  All-dynamic_mapping [] = tt
  All-dynamic_mapping (c ∷ cs) = ((refl, tt), All-dynamic_mapping cs)

  Safe-single_port : (ports : List Port) → Safe K C (λ _. Unit) (single_port ports)
  unfolding single_port
  Safe-single_port ports =
      Safe-if (ltb 1 (length (unique_ports [] ports))) (fail (failed (too_many_ports ports)))
        (pure tt) (λ _. Safe-fail _) (λ _. Safe-pure tt tt)

  Safe-add_application_balancer :
      (t : EmpireTemplate) (p : Process) (at : Placing) (ports : List Port) (tags : List Tag)
      → Safe K C (BalancerClosed K) (add_application_balancer t p at ports tags)
  unfolding add_application_balancer
  Safe-add_application_balancer t p at ports tags =
      Safe-bind _ _ (Safe-add _ _ (λ _. ResourceClosed-application at tags))
        (λ _. search (grows_rules, Grows-add_listeners, Grows-single_port))
        λ _ b.
          Safe-bind _ _ (Safe-put _ _ (λ _. ResourceClosed-target_group t tags))
            (λ _. search (grows_rules, Grows-add_listeners, Grows-single_port))
            λ _ g.
              Safe-bind _ _ (Safe-single_port ports)
                (λ _. search (grows_rules, Grows-add_listeners))
                λ _ _.
                  Safe-bind _ _ (Safe-add_listeners _ _ ports b g) (λ _. search (grows_rules))
                    λ names ns.
                      Safe-bind _ _
                        (Safe-required {Q = λ _. Unit} out_of_range (first_port ports) (λ _. tt))
                        (λ _. search (grows_rules))
                        λ container _. Safe-pure _ (record {
                          named = b;
                          used = record {
                            mappings = All-dynamic_mapping (unique_ports [] ports);
                            dependencies_known = ns;
                            balancers = unfold references intrinsic target ref text_eq in (g, tt);
                          };
                        })

  ResourceClosed-instance_port : (t : EmpireTemplate) → ResourceClosed K C (instance_port t)
  unfolding instance_port references intrinsic names_of target text_eq
  ResourceClosed-instance_port t = (tt, tt, tt)

  -- The names of the instance ports: each is known, and each container port has one.
  InstancePorts : List ℤ → List (ℤ × Text) → Type 0
  InstancePorts cs m =
      All (λ (e : ℤ × Text). K e.1) m × ((c : ℤ) → is_seen c cs ≡ true → K (port_name c m))

  Safe-add_instance_ports :
      (t : EmpireTemplate) (key : Text) (cs : List ℤ)
      → Safe K C (InstancePorts cs) (add_instance_ports t key cs)
  unfolding add_instance_ports InstancePorts is_seen port_name
  Safe-add_instance_ports t key [] = Safe-pure [] (tt, λ c h. absurd (false≢true h))
  Safe-add_instance_ports t key (c ∷ cs) =
      Safe-bind _ _ (Safe-add _ _ (λ _. ResourceClosed-instance_port t))
        (λ _. Grows-bind _ _ (Grows-add_instance_ports t key cs) λ _. Grows-pure _)
        λ _ n.
          Safe-bind _ _ (Safe-add_instance_ports t key cs) (λ _. Grows-pure _)
            λ m (h, f). Safe-pure _ (
              (n, h),
              λ d s. elim (Bool-cases (eqb_ℤ c d)) [
                | inl e ↦ rw e n
                | inr e ↦ rw e (f d (rw e at s))
              ],
            )

  All-classic_listener :
      (port : Port) (i : Value) (protocol : Protocol)
      → All K (references i)
      → All K (references (classic_listener port i protocol))
  unfolding classic_listener listener_value references intrinsic certificate
  All-classic_listener port i tcp h = All-append K (references i) [] h tt
  All-classic_listener port i http h = All-append K (references i) [] h tt
  All-classic_listener port i (ssl cert) h =
      All-append K (references i) _ h
        (All-append K _ [] (All-expand_arn K (codes ":server-certificate/") cert account) tt)
  All-classic_listener port i (https cert) h =
      All-append K (references i) _ h
        (All-append K _ [] (All-expand_arn K (codes ":server-certificate/") cert account) tt)

  All-classic_listeners :
      (m : List (ℤ × Text)) (ports : List Port)
      → All (λ (port : Port). K (port_name port.container m)) ports
      → All K (item_references (items (classic_listeners m ports)))
  unfolding classic_listeners references
  All-classic_listeners m [] h = tt
  All-classic_listeners m (port ∷ ports) (k, h) =
      let rest = All-classic_listeners m ports h in
      elim (Option-cases port.protocol) [
        | inl e ↦ rw e rest
        | inr (protocol, e) ↦ rw e (
            All-append K (references (classic_listener port _ protocol)) _
              (All-classic_listener port _ protocol
                (All-get_att K (port_name port.container m) (codes "InstancePort") k))
              rest)
      ]

  All-instance_mapping :
      (m : List (ℤ × Text))
      → All (λ (e : ℤ × Text). K e.1) m
      → All
          (λ (p : PortMapping). IsLocal p.container_port × All K (references p.host_port))
          (map instance_mapping m)
  unfolding instance_mapping references
  All-instance_mapping [] h = tt
  All-instance_mapping ((c, name) ∷ m) (k, h) =
      ((refl, All-get_att K name (codes "InstancePort") k), All-instance_mapping m h)

  ResourceClosed-classic :
      (at : Placing) (listeners : List Value) (tags : List Tag)
      → All K (item_references (items listeners))
      → ResourceClosed K C (classic_resource at listeners tags)
  unfolding classic_resource references intrinsic names_of texts
  ResourceClosed-classic at listeners tags h = (
    rw (IsLocal-texts at.subnets, IsLocal-tag_values tags)
        (All-append K (item_references (items listeners)) [] h tt),
    tt,
    tt,
  )

  Safe-add_classic_balancer :
      (t : EmpireTemplate) (p : Process) (at : Placing) (ports : List Port) (tags : List Tag)
      → Safe K C (BalancerClosed K) (add_classic_balancer t p at ports tags)
  unfolding add_classic_balancer InstancePorts is_seen
  Safe-add_classic_balancer t p at ports tags =
      Safe-bind _ _ (Safe-add_instance_ports t _ (unique_ports [] ports))
        (λ _. search (grows_rules))
        λ m (named, found).
          let known =
            All-weaken ports (λ port h. found port.container h) (All-unique_ports [] ports) in
          Safe-bind _ _
            (Safe-add _ _
              (λ _. ResourceClosed-classic at _ tags (All-classic_listeners m ports known)))
            (λ _. search (grows_rules))
            λ _ n.
              Safe-bind _ _
                (Safe-required {Q = λ _. Unit} out_of_range (first_port ports) (λ _. tt))
                (λ _. search (grows_rules))
                λ container _. Safe-pure _ (record {
                  named = n;
                  used = record {
                    mappings = All-instance_mapping m named;
                    dependencies_known = tt;
                    balancers = unfold references intrinsic target ref text_eq in (n, tt);
                  };
                })

  Safe-add_records :
      (app : Manifest) (p : Process) (zone : HostedZone) (b : Balancer)
      → C (codes "DNSCondition")
      → K b.balancer_name
      → Safe K C (λ _. Unit) (add_records app p zone b)
  unfolding add_records alias_resource cname_resource record_set
  Safe-add_records app p zone b c k =
      Safe-bind _ _
        (Safe-add _ _ (λ _.
          unfold references intrinsic target get_att text_eq names_of in
          ((k, (k, tt)), tt, (c, tt))))
        (λ _. search (grows_rules))
        λ _ _.
          Safe-if (text_eq p.process_type (codes "web")) _ _
            (λ _.
              Safe-weaken _
                (Safe-put _ _ (λ _.
                  unfold references intrinsic target get_att text_eq names_of in
                  ((k, tt), tt, (c, tt))))
                (λ _ _. tt))
            (λ _. Safe-pure tt tt)

  pub Safe-add_exposure :
      (t : EmpireTemplate) (app : Manifest) (p : Process) (e : Option Exposure) (tags : List Tag)
      → C (codes "DNSCondition")
      → Safe K C (BalancedClosed K) (add_exposure t app p e tags)
  unfolding add_exposure expose add_balancer
  Safe-add_exposure t app p none tags c =
      Safe-pure _
        (record { mappings = tt; dependencies_known = tt; balancers = unfold references in tt })
  Safe-add_exposure t app p (some exposure) tags c =
      Safe-bind _ _
        (Safe-if (text_eq (load_balancer_type app p) application_load_balancer) _ _
          (λ _. Safe-add_application_balancer t p _ exposure.ports _)
          (λ _. Safe-add_classic_balancer t p _ exposure.ports _))
        (λ _. search (grows_rules, Grows-add_records))
        λ b known.
          Safe-bind _ _ (Safe-required {Q = λ _. Unit} nil_dereference t.hosted_zone (λ _. tt))
            (λ _. search (grows_rules, Grows-add_records))
            λ zone _.
              Safe-bind _ _ (Safe-add_records app p zone b c known.named)
                (λ _. search (grows_rules)) λ _ _. Safe-pure _ known.used
