-- ===== src/Policy/Check/Rules.antt =====
-- What a resource with no violation looks like, in terms of its JSON values.
use mathlib.Core.Path.{subst}
use accountable.Prelude.{
  append-eq-nil, String, Bool, true, false, ◌≡◌, ◌≢◌, ◌⊎◌, inl, inr, refl, sym, List, [], ◌∷◌, any,
  All, Option, some, ◌==◌, arith, eq_iff, Bool-cases,
}
use accountable.Json.{Json, bool, str, as_array, as_object, string_or_empty}
use accountable.Maps.{Dict, lookup, member}
use accountable.Policy.{PlannedResource, Decoders}
use accountable.Policy.Values.{
  boolean, explicit_false, ecs_assigns_public_ip, world_open, world_open_list,
  inline_ingress_is_world_open, task_images_use_digests, cache_policy_disables_caching,
  cache_policy_enables_compression, assigns_in, rule_is_open,
}
use accountable.Policy.Check.{violation_if, is_complete_block, rule_violations, all_rule_violations}

-- A CIDR value that is not the whole of the IPv4 or IPv6 Internet.
abbrev pub NotWorld : Option Json → Type 0
NotWorld value = (value ≢ some (str "0.0.0.0/0")) × (value ≢ some (str "::/0"))

abbrev pub NotWorldList : Option Json → Type 0
NotWorldList value = All (λ candidate. NotWorld (some candidate)) (as_array value)

boolean_sound :
    (values : Dict Json) (field : String)
    → boolean values field ≡ true
    → lookup field values ≡ some (bool true)
unfolding boolean
boolean_sound values field h = ground arith

not-boolean_sound :
    (values : Dict Json) (field : String)
    → boolean values field ≡ false
    → lookup field values ≢ some (bool true)
unfolding boolean
not-boolean_sound values field h = ground arith

explicit_false_sound :
    (values : Dict Json) (field : String)
    → explicit_false values field ≡ true
    → lookup field values ≡ some (bool false)
unfolding explicit_false
explicit_false_sound values field h = ground arith

world_open_sound : (value : Option Json) → world_open value ≡ false → NotWorld value
unfolding world_open
world_open_sound value h = (λ e. cc, λ e. cc)

world_open_list_sound : (value : Option Json) → world_open_list value ≡ false → NotWorldList value
unfolding world_open_list
world_open_list_sound value h = go (as_array value) h
  where
    go :
        (candidates : List Json)
        → any (λ candidate. world_open (some candidate)) candidates ≡ false
        → All (λ candidate. NotWorld (some candidate)) candidates
    go [] h = tt
    go (c ∷ cs) h = (world_open_sound (some c) (ground arith), go cs (ground arith))

inline_ingress_sound :
    (value : Option Json)
    → inline_ingress_is_world_open value ≡ false
    → All
        (λ rule.
          NotWorldList (lookup "cidr_blocks" (as_object rule))
          × NotWorldList (lookup "ipv6_cidr_blocks" (as_object rule)))
        (as_array value)
unfolding inline_ingress_is_world_open
inline_ingress_sound value h = go (as_array value) h
  where
    go :
        (rules : List Json)
        → any rule_is_open rules ≡ false
        → All
            (λ rule.
              NotWorldList (lookup "cidr_blocks" (as_object rule))
              × NotWorldList (lookup "ipv6_cidr_blocks" (as_object rule)))
            rules
    go [] h = tt
    go (rule ∷ rules) h = (
      (
        world_open_list_sound (lookup "cidr_blocks" (as_object rule)) (ground arith),
        world_open_list_sound (lookup "ipv6_cidr_blocks" (as_object rule)) (ground arith),
      ),
      go rules (ground arith),
    )

-- The one network configuration of an ECS service.
abbrev pub NoPublicIp : List Json → Type 0
NoPublicIp configurations =
    (configuration : Json) × (configurations ≡ configuration ∷ [])
    × (lookup "assign_public_ip" (as_object configuration) ≡ some (bool false))

assigns_in_sound :
    (configurations : List Json) → assigns_in configurations ≡ false → NoPublicIp configurations
unfolding assigns_in
assigns_in_sound [] h = cc
assigns_in_sound (c ∷ []) h =
    (c, refl, explicit_false_sound (as_object c) "assign_public_ip" (ground arith))
assigns_in_sound (c ∷ d ∷ cs) h = cc

ecs_sound :
    (values : Dict Json)
    → ecs_assigns_public_ip values ≡ false
    → NoPublicIp (as_array (lookup "network_configuration" values))
unfolding ecs_assigns_public_ip
ecs_sound values h = assigns_in_sound (as_array (lookup "network_configuration" values)) h

-- The policy on one resource.
pub record Compliant (go : Decoders) (has_waf : Bool) (image_proofs : List String)
    (r : PlannedResource) : Type 0 where
  pub rds :
      r.type ≡ "aws_db_instance"
      → (lookup "multi_az" r.values ≡ some (bool true))
        × (lookup "publicly_accessible" r.values ≡ some (bool false))
        × (lookup "storage_encrypted" r.values ≡ some (bool true))
  pub alb : r.type ≡ "aws_lb" → lookup "internal" r.values ≡ some (bool true)
  pub ecs :
      r.type ≡ "aws_ecs_service" → NoPublicIp (as_array (lookup "network_configuration" r.values))
  pub ingress_rule :
      r.type ≡ "aws_vpc_security_group_ingress_rule"
      → NotWorld (lookup "cidr_ipv4" r.values)
        × NotWorld (lookup "cidr_ipv6" r.values)
        × (lookup "cidr_ipv4" r.unknown ≢ some (bool true))
        × (lookup "cidr_ipv6" r.unknown ≢ some (bool true))
  pub group_rule :
      r.type ≡ "aws_security_group_rule"
      → lookup "type" r.values ≡ some (str "ingress")
      → NotWorldList (lookup "cidr_blocks" r.values)
        × NotWorldList (lookup "ipv6_cidr_blocks" r.values)
  pub group :
      r.type ≡ "aws_security_group"
      → All
          (λ rule.
            NotWorldList (lookup "cidr_blocks" (as_object rule))
            × NotWorldList (lookup "ipv6_cidr_blocks" (as_object rule)))
          (as_array (lookup "ingress" r.values))
  pub block :
      r.type ≡ "aws_s3_bucket_public_access_block"
      → (lookup "block_public_acls" r.values ≡ some (bool true))
        × (lookup "block_public_policy" r.values ≡ some (bool true))
        × (lookup "ignore_public_acls" r.values ≡ some (bool true))
        × (lookup "restrict_public_buckets" r.values ≡ some (bool true))
  pub task :
      r.type ≡ "aws_ecs_task_definition"
      → (task_images_use_digests go (lookup "container_definitions" r.values) ≡ true)
        ⊎ ((lookup "container_definitions" r.unknown ≡ some (bool true))
            × (member r.address image_proofs ≡ true))
  pub distribution :
      r.type ≡ "aws_cloudfront_distribution"
      → ((acl : String) × (lookup "web_acl_id" r.values ≡ some (str acl)) × (acl ≢ ""))
        ⊎ ((lookup "web_acl_id" r.unknown ≡ some (bool true)) × (has_waf ≡ true))
  pub cache_policy :
      r.type ≡ "aws_cloudfront_cache_policy"
      → cache_policy_disables_caching r.values ≡ true
      → cache_policy_enables_compression r.values ≡ false

violation_if-eq-nil :
    (condition : Bool) (r : PlannedResource) (message : String)
    → violation_if condition r message ≡ []
    → condition ≡ false
violation_if-eq-nil true r message h = cc
violation_if-eq-nil false r message h = refl

string_sound :
    (value : Option Json)
    → (string_or_empty value == "") ≡ false
    → (s : String) × (value ≡ some (str s)) × (s ≢ "")
string_sound (some (str s)) h = (s, refl, ground (arith, eq_iff s ""))
string_sound _ h = cc

ingress_of :
    (value : Option Json)
    → value ≡ some (str "ingress")
    → (string_or_empty value == "ingress") ≡ true
ingress_of value e = subst (λ v. (string_or_empty v == "ingress") ≡ true) (sym e) refl

module _ (go : Decoders) (has_waf : Bool) (image_proofs : List String) (r : PlannedResource)
    (passes : rule_violations go has_waf image_proofs r ≡ []) where
  -- The switch at a type, once that is known.
  at_type :
      (type : String)
      → r.type ≡ type
      → rule_violations go has_waf image_proofs (record r { type = type }) ≡ []
  at_type type e =
      subst (λ t. rule_violations go has_waf image_proofs (record r { type = t }) ≡ []) e passes

  -- A resource that the switch passes is compliant.
  rule_violations_sound : Compliant go has_waf image_proofs r
  unfolding rule_violations is_complete_block
  rule_violations_sound = record {
    rds = λ e. ground (
      arith,
      at_type "aws_db_instance" e,
      boolean_sound r.values "multi_az",
      explicit_false_sound r.values "publicly_accessible",
      boolean_sound r.values "storage_encrypted",
    );
    alb = λ e. ground (arith, at_type "aws_lb" e, boolean_sound r.values "internal");
    ecs = λ e. ecs_sound r.values (ground (arith, at_type "aws_ecs_service" e));
    ingress_rule = λ e. (
      world_open_sound (lookup "cidr_ipv4" r.values)
          (ground (arith, at_type "aws_vpc_security_group_ingress_rule" e)),
      world_open_sound (lookup "cidr_ipv6" r.values)
          (ground (arith, at_type "aws_vpc_security_group_ingress_rule" e)),
      not-boolean_sound r.unknown "cidr_ipv4"
          (ground (arith, at_type "aws_vpc_security_group_ingress_rule" e)),
      not-boolean_sound r.unknown "cidr_ipv6"
          (ground (arith, at_type "aws_vpc_security_group_ingress_rule" e)),
    );
    group_rule = λ e i. (
      world_open_list_sound (lookup "cidr_blocks" r.values) (
          ground
            (arith, at_type "aws_security_group_rule" e, ingress_of (lookup "type" r.values) i)),
      world_open_list_sound (lookup "ipv6_cidr_blocks" r.values) (
          ground
            (arith, at_type "aws_security_group_rule" e, ingress_of (lookup "type" r.values) i)),
    );
    group = λ e.
        inline_ingress_sound (lookup "ingress" r.values)
          (ground (arith, at_type "aws_security_group" e));
    block = λ e. ground (
      arith,
      at_type "aws_s3_bucket_public_access_block" e,
      boolean_sound r.values "block_public_acls",
      boolean_sound r.values "block_public_policy",
      boolean_sound r.values "ignore_public_acls",
      boolean_sound r.values "restrict_public_buckets",
    );
    task = λ e. ground (
      arith,
      at_type "aws_ecs_task_definition" e,
      boolean_sound r.unknown "container_definitions",
    );
    distribution = λ e. elim (Bool-cases (string_or_empty (lookup "web_acl_id" r.values) == "")) [
      | inl none_named ↦ inr (
          ground
            (arith, at_type "aws_cloudfront_distribution" e, boolean_sound r.unknown "web_acl_id"))
      | inr named ↦ inl (string_sound (lookup "web_acl_id" r.values) named)
    ];
    cache_policy = λ e c. ground (arith, at_type "aws_cloudfront_cache_policy" e);
  }

pub all_rule_violations_sound :
    (go : Decoders) (has_waf : Bool) (image_proofs : List String) (resources : List PlannedResource)
    → all_rule_violations go has_waf image_proofs resources ≡ []
    → All (Compliant go has_waf image_proofs) resources
unfolding all_rule_violations
all_rule_violations_sound go has_waf image_proofs [] h = tt
all_rule_violations_sound go has_waf image_proofs (r ∷ rs) h =
    let (here, later) =
      append-eq-nil (rule_violations go has_waf image_proofs r)
        (all_rule_violations go has_waf image_proofs rs) h in
    (
      rule_violations_sound go has_waf image_proofs r here,
      all_rule_violations_sound go has_waf image_proofs rs later,
    )
