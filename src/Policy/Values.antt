-- ===== src/Policy/Values.antt =====
-- The tests of policy.go on a resource's values.
use Prim.Native.Char.{code}
use accountable.Prelude.{
  ℕ, String, Bool, true, false, not, ◌&&◌, ◌||◌, List, [], ◌∷◌, any, all, Option, none, some, ◌==◌,
  if◌then◌else◌, eqb, leb,
}
use accountable.Text.{has_prefix, drop_prefix}
use accountable.Text.Patterns.{of_class, is_digit}
use accountable.Json.{Json, number, str, as_bool, as_string, as_array, as_object, string_or_empty}
use accountable.Maps.{Dict, lookup}
use accountable.Policy.{PlannedResource, Decoders}

-- value, _ := values[field].(bool): `boolean`, and `fieldIsUnknown` alike
unfoldable pub boolean : Dict Json → String → Bool
boolean values field = elim (as_bool (lookup field values)) [ some value ↦ value | none ↦ false ]

unfoldable pub explicit_false : Dict Json → String → Bool
explicit_false values field = elim (as_bool (lookup field values)) [
  | some value ↦ not value
  | none ↦ false
]

-- len(configurations) != 1, then the one configuration
unfoldable pub assigns_in : List Json → Bool
assigns_in (configuration ∷ []) = not (explicit_false (as_object configuration) "assign_public_ip")
assigns_in _ = true

unfoldable pub ecs_assigns_public_ip : Dict Json → Bool
unfolding assigns_in
ecs_assigns_public_ip values = assigns_in (as_array (lookup "network_configuration" values))

unfoldable pub has_resource_type : List PlannedResource → String → Bool
has_resource_type resources type = any (λ resource. resource.type == type) resources

unfoldable pub world_open : Option Json → Bool
world_open value = let cidr = string_or_empty value in cidr == "0.0.0.0/0" || cidr == "::/0"

unfoldable pub world_open_list : Option Json → Bool
unfolding world_open
world_open_list value = any (λ candidate. world_open (some candidate)) (as_array value)

unfoldable pub rule_is_open : Json → Bool
rule_is_open candidate =
    let rule = as_object candidate in
    world_open_list (lookup "cidr_blocks" rule) || world_open_list (lookup "ipv6_cidr_blocks" rule)

unfoldable pub inline_ingress_is_world_open : Option Json → Bool
unfolding rule_is_open
inline_ingress_is_world_open value = any rule_is_open (as_array value)

-- accountIDPattern, ^[0-9]{12}$
unfoldable pub account_id_pattern : String → Bool
unfolding of_class
account_id_pattern = of_class is_digit 12 12

-- [[:space:]]
abbrev is_ascii_space : ℕ → Bool
is_ascii_space c = eqb c 0x20 || eqb c 0x09 || eqb c 0x0a || eqb c 0x0b || eqb c 0x0c || eqb c 0x0d

-- [a-f0-9]
abbrev is_hex : ℕ → Bool
is_hex c = is_digit c || leb b'a' c && leb c b'f'

-- The text after the first "@", for a text with runes before it that are neither spaces nor "@".

after_name : Bool → String → Option String
after_name some_rune String.[] = none
after_name some_rune (String.◌∷◌ c s) =
    let rest = after_name true s in
    if eqb (code c) b'@'
    then (if some_rune then some s else none)
    else if is_ascii_space (code c)
    then none
    else rest

is_digest : Option String → Bool
unfolding has_prefix of_class
is_digest none = false
is_digest (some digest) =
    has_prefix digest "sha256:" && of_class is_hex 64 64 (drop_prefix digest "sha256:")

-- imageURIpattern, ^[^[:space:]@]+@sha256:[a-f0-9]{64}$
unfoldable pub image_uri_pattern : String → Bool
unfolding after_name is_digest
image_uri_pattern s = is_digest (after_name false s)

module _ (go : Decoders) where
  -- err != nil || len(containers) == 0, then every image
  images_use_digests : Option (List String) → Bool
  images_use_digests none = false
  images_use_digests (some []) = false
  images_use_digests (some (image ∷ images)) = all image_uri_pattern (image ∷ images)

  unfoldable pub task_images_use_digests : Option Json → Bool
  unfolding images_use_digests
  task_images_use_digests value = elim (as_string value) [
    | none ↦ false
    | some definitions ↦
        if definitions == "" then false else images_use_digests (go.decode_images definitions)
  ]

-- numberIsZero: a value that fmt prints as "0" or "0.0", be it a number or a text. The cases of
-- int, int64 and json.Number do not arise, since encoding/json decodes a number into a float64.
unfoldable pub number_is_zero : Option Json → Bool
number_is_zero (some (number text)) = text == "0" || text == "0.0"
number_is_zero (some (str text)) = text == "0" || text == "0.0"
number_is_zero _ = false

unfoldable pub cache_policy_disables_caching : Dict Json → Bool
cache_policy_disables_caching values =
    number_is_zero (lookup "default_ttl" values)
    && number_is_zero (lookup "max_ttl" values)
    && number_is_zero (lookup "min_ttl" values)

first_block_compresses : List Json → Bool
first_block_compresses [] = false
first_block_compresses (block ∷ blocks) =
    boolean (as_object block) "enable_accept_encoding_gzip"
    || boolean (as_object block) "enable_accept_encoding_brotli"

unfoldable pub cache_policy_enables_compression : Dict Json → Bool
unfolding first_block_compresses
cache_policy_enables_compression values =
    first_block_compresses
      (as_array (lookup "parameters_in_cache_key_and_forwarded_to_origin" values))
