-- ===== src/Policy/Check.antt =====
-- resourceViolations of internal/tofupolicy/policy.go. A round of its loop appends the violations of
-- a resource, which depend on that resource alone, and writes down what the resource says of
-- buckets; after the loop every bucket must be covered by a complete public-access block.
pub mod Rules
pub mod Scanning
pub mod Buckets
use accountable.Prelude.{
  String, Bool, true, false, not, ◌&&◌, ◌||◌, List, [], ◌∷◌, ◌++◌, any, Option, none, some, ◌==◌,
  if◌then◌else◌,
}
use accountable.Json.{Json, as_string, as_bool, string_or_empty}
use accountable.Maps.{Dict, lookup, insert, member, add}
use accountable.Policy.{Violation, PlannedResource, Decoders}
use accountable.Policy.Values.{
  boolean, explicit_false, ecs_assigns_public_ip, has_resource_type, world_open, world_open_list,
  inline_ingress_is_world_open, task_images_use_digests, cache_policy_disables_caching,
  cache_policy_enables_compression,
}

abbrev pub violation_if : Bool → PlannedResource → String → List Violation
violation_if condition resource message =
    if condition then record { address = resource.address; message = message } ∷ [] else []

-- The four controls of a public-access block.
unfoldable pub is_complete_block : Dict Json → Bool
is_complete_block values =
    boolean values "block_public_acls"
    && boolean values "block_public_policy"
    && boolean values "ignore_public_acls"
    && boolean values "restrict_public_buckets"

-- resource.Values["type"] == "ingress"
is_ingress : Option Json → Bool
is_ingress value = string_or_empty value == "ingress"

abbrev world_open_message : String
world_open_message = "security-group ingress is world-open"

module _ (go : Decoders) (has_waf : Bool) (image_proofs : List String) where
  -- The violations that the switch appends for one resource.
  unfoldable pub rule_violations : PlannedResource → List Violation
  unfolding is_ingress
  rule_violations r =
      if r.type == "aws_db_instance"
      then violation_if (not (boolean r.values "multi_az")) r "RDS must be Multi-AZ"
        ++ (violation_if (not (explicit_false r.values "publicly_accessible")) r
              "RDS publicly_accessible must be false"
            ++ violation_if (not (boolean r.values "storage_encrypted")) r
                "RDS storage must be encrypted")
      else if r.type == "aws_lb"
      then violation_if (not (boolean r.values "internal")) r "ALB must be internal"
      else if r.type == "aws_ecs_service"
      then violation_if (ecs_assigns_public_ip r.values) r "ECS service must not assign a public IP"
      else if r.type == "aws_vpc_security_group_ingress_rule"
      then violation_if
          (world_open (lookup "cidr_ipv4" r.values)
            || world_open (lookup "cidr_ipv6" r.values)
            || boolean r.unknown "cidr_ipv4"
            || boolean r.unknown "cidr_ipv6")
          r world_open_message
      else if r.type == "aws_security_group_rule"
      then violation_if
          (is_ingress (lookup "type" r.values)
            && (world_open_list (lookup "cidr_blocks" r.values)
                || world_open_list (lookup "ipv6_cidr_blocks" r.values)))
          r world_open_message
      else if r.type == "aws_security_group"
      then violation_if (inline_ingress_is_world_open (lookup "ingress" r.values)) r
          world_open_message
      else if r.type == "aws_s3_bucket_public_access_block"
      then violation_if (not (is_complete_block r.values)) r
          "S3 public-access controls must all be true"
      else if r.type == "aws_ecs_task_definition"
      then violation_if
          (not (task_images_use_digests go (lookup "container_definitions" r.values))
            && (not (boolean r.unknown "container_definitions")
                || not (member r.address image_proofs)))
          r "every task image must use a sha256 digest"
      else if r.type == "aws_cloudfront_distribution"
      then violation_if
          (string_or_empty (lookup "web_acl_id" r.values) == ""
            && (not (boolean r.unknown "web_acl_id") || not has_waf))
          r "CloudFront must have an AWS WAF web ACL"
      else if r.type == "aws_cloudfront_cache_policy"
      then violation_if
          (cache_policy_disables_caching r.values && cache_policy_enables_compression r.values) r
          "caching-disabled CloudFront cache policy cannot enable Accept-Encoding compression"
      else []

  pub all_rule_violations : List PlannedResource → List Violation
  unfolding rule_violations
  all_rule_violations [] = []
  all_rule_violations (r ∷ rs) = rule_violations r ++ all_rule_violations rs

-- The maps of the loop.
pub record Scan : Type 0 where
  pub buckets : Dict String
  pub bucket_addresses : List String
  pub public_access_blocks : Dict Bool
  pub protected_bucket_addresses : List String

-- bucket, ok := Values["bucket"].(string); ok && bucket != ""
abbrev name_bucket : String → String → Dict String → Dict String
name_bucket bucket address buckets = if bucket == "" then buckets else insert bucket address buckets

-- s3BlockTargets[resource.Address], "" if there is none
abbrev pub target_of : Option String → String
target_of none = ""
target_of (some address) = address

-- The writes of the switch to those maps, for one resource.
unfoldable pub scan_resource : Dict String → Scan → PlannedResource → Scan
scan_resource targets s r =
    let bucket = string_or_empty (lookup "bucket" r.values) in
    if r.type == "aws_s3_bucket"
    then record s {
      bucket_addresses = add r.address s.bucket_addresses;
      buckets = name_bucket bucket r.address s.buckets;
    }
    else if r.type == "aws_s3_bucket_public_access_block"
    then record s {
      public_access_blocks =
          if bucket == ""
          then s.public_access_blocks
          else insert bucket (is_complete_block r.values) s.public_access_blocks;
      protected_bucket_addresses =
          if is_complete_block r.values
          then add (target_of (lookup r.address targets)) s.protected_bucket_addresses
          else s.protected_bucket_addresses;
    }
    else s

pub scan_resources : Dict String → Scan → List PlannedResource → Scan
unfolding scan_resource
scan_resources targets s [] = s
scan_resources targets s (r ∷ rs) = scan_resources targets (scan_resource targets s r) rs

abbrev pub empty_scan : Scan
empty_scan = record {
  buckets = [];
  bucket_addresses = [];
  public_access_blocks = [];
  protected_bucket_addresses = [];
}

abbrev unblocked : Option Bool → Bool
unblocked none = true
unblocked (some complete) = not complete

abbrev uncovered : String → Violation
uncovered address = record {
  address = address;
  message = "S3 bucket has no complete public-access block";
}

-- for bucket, address := range buckets
pub named_bucket_violations : Scan → Dict String → List Violation
named_bucket_violations s [] = []
named_bucket_violations s ((bucket, address) ∷ rest) =
    (if unblocked (lookup bucket s.public_access_blocks)
        && not (member address s.protected_bucket_addresses)
      then uncovered address ∷ []
      else [])
    ++ named_bucket_violations s rest

-- _, hasKnownName := resourceValueAddress(buckets, address)
unfoldable pub has_known_name : Dict String → String → Bool
has_known_name values address = any (λ (entry : String × String). entry.1 == address) values

-- for address := range bucketAddresses
pub address_violations : Scan → List String → List Violation
unfolding has_known_name
address_violations s [] = []
address_violations s (address ∷ rest) =
    (if not (has_known_name s.buckets address) && not (member address s.protected_bucket_addresses)
      then uncovered address ∷ []
      else [])
    ++ address_violations s rest

unfoldable pub resource_violations :
    Decoders → List PlannedResource → List String → Dict String → List Violation
unfolding all_rule_violations scan_resources named_bucket_violations address_violations
    has_resource_type
resource_violations go resources image_proofs s3_block_targets =
    let has_waf = has_resource_type resources "aws_wafv2_web_acl" in
    let s = scan_resources s3_block_targets empty_scan resources in
    all_rule_violations go has_waf image_proofs resources
    ++ (named_bucket_violations s s.buckets ++ address_violations s s.bucket_addresses)
