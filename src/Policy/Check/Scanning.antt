-- ===== src/Policy/Check/Scanning.antt =====
-- What the scan of the resources has written down of the buckets and their blocks.
use mathlib.Core.Path.{subst}
use mathlib.Core.List.{Memᴰ}
use accountable.Prelude.{
  String, Bool, true, ◌≡◌, inl, inr, refl, List, [], ◌∷◌, All, ◌==◌, if◌then◌else◌, arith, eq_iff,
  eq_refl, Bool-cases,
}
use accountable.Json.{string_or_empty}
use accountable.Maps.{Dict, lookup, insert, member, add, All-insert, All-add, member-add}
use accountable.Policy.{PlannedResource}
use accountable.Policy.Check.{
  is_complete_block, Scan, name_bucket, target_of, scan_resource, scan_resources, empty_scan,
}

abbrev pub bucket_name : PlannedResource → String
bucket_name r = string_or_empty (lookup "bucket" r.values)

module _ (targets : Dict String) (resources : List PlannedResource) where
  -- A resource of the plan that is a complete public-access block.
  pub record CompleteBlock (r : PlannedResource) : Type 0 where
    pub listed : Memᴰ r resources
    pub type : r.type ≡ "aws_s3_bucket_public_access_block"
    pub complete : is_complete_block r.values ≡ true

  -- A complete block whose own `bucket` value is the name.
  abbrev pub BlocksName : String → Type 0
  BlocksName name = (r : PlannedResource) × CompleteBlock r × (bucket_name r ≡ name)

  -- A complete block whose configuration refers to the address.
  abbrev pub BlocksAddress : String → Type 0
  BlocksAddress address =
      (r : PlannedResource) × CompleteBlock r × (target_of (lookup r.address targets) ≡ address)

  -- A bucket of the plan at the address that has the name.
  abbrev pub HasName : String → String → Type 0
  HasName name address =
      (r : PlannedResource) × Memᴰ r resources × (r.address ≡ address) × (bucket_name r ≡ name)

  -- What the maps of the loop mean.
  pub record Means (s : Scan) : Type 0 where
    pub buckets : All (λ (e : String × String). HasName e.0 e.1) s.buckets
    pub blocks : All (λ (e : String × Bool). e.1 ≡ true → BlocksName e.0) s.public_access_blocks
    pub protected : All BlocksAddress s.protected_bucket_addresses

  pub Means-empty_scan : Means empty_scan
  Means-empty_scan = record { buckets = tt; blocks = tt; protected = tt }

  module _ (s : Scan) (r : PlannedResource) (listed : Memᴰ r resources) (m : Means s) where
    name_bucket_means :
        All
          (λ (e : String × String). HasName e.0 e.1)
          (name_bucket (bucket_name r) r.address s.buckets)
    name_bucket_means = elim (Bool-cases (bucket_name r == "")) [
      | inl e ↦ rw e m.buckets
      | inr e ↦
          rw e (All-insert _ (bucket_name r) r.address s.buckets m.buckets (r, listed, refl, refl))
    ]

    block_means :
        r.type ≡ "aws_s3_bucket_public_access_block"
        → All
            (λ (e : String × Bool). e.1 ≡ true → BlocksName e.0)
            (if bucket_name r == ""
              then s.public_access_blocks
              else insert (bucket_name r) (is_complete_block r.values) s.public_access_blocks)
    block_means t = elim (Bool-cases (bucket_name r == "")) [
      | inl e ↦ rw e m.blocks
      | inr e ↦ rw e (
          All-insert _ (bucket_name r) (is_complete_block r.values) s.public_access_blocks m.blocks
            (λ c. (r, record { listed = listed; type = t; complete = c }, refl)))
    ]

    protected_means :
        r.type ≡ "aws_s3_bucket_public_access_block"
        → All BlocksAddress (
            if is_complete_block r.values
            then add (target_of (lookup r.address targets)) s.protected_bucket_addresses
            else s.protected_bucket_addresses)
    protected_means t = elim (Bool-cases (is_complete_block r.values)) [
      | inl c ↦ rw c (
          All-add _ (target_of (lookup r.address targets)) s.protected_bucket_addresses m.protected
            (r, record { listed = listed; type = t; complete = c }, refl))
      | inr c ↦ rw c m.protected
    ]

    Means-scan_resource : Means (scan_resource targets s r)
    unfolding scan_resource
    Means-scan_resource = elim (Bool-cases (r.type == "aws_s3_bucket")) [
      | inl t ↦
          rw t (record { buckets = name_bucket_means; blocks = m.blocks; protected = m.protected })
      | inr t ↦ elim (Bool-cases (r.type == "aws_s3_bucket_public_access_block")) [
        | inl b ↦
            let type = (eq_iff r.type "aws_s3_bucket_public_access_block").0 b in
            rw (t, b)
              (record {
                buckets = m.buckets;
                blocks = block_means type;
                protected = protected_means type;
              })
        | inr b ↦ rw (t, b) m
      ]
    ]

  pub Means-scan_resources :
      (s : Scan) (rs : List PlannedResource)
      → All (λ r. Memᴰ r resources) rs
      → Means s
      → Means (scan_resources targets s rs)
  unfolding scan_resources
  Means-scan_resources s [] h m = m
  Means-scan_resources s (r ∷ rs) h m =
      Means-scan_resources (scan_resource targets s r) rs h.1 (Means-scan_resource s r h.0 m)

pub member-scan_resource :
    (targets : Dict String) (s : Scan) (r : PlannedResource) (a : String)
    → member a s.bucket_addresses ≡ true
    → member a (scan_resource targets s r).bucket_addresses ≡ true
unfolding scan_resource
member-scan_resource targets s r a h = ground (arith, member-add r.address a s.bucket_addresses)

pub member-scan_resource_self :
    (targets : Dict String) (s : Scan) (r : PlannedResource)
    → r.type ≡ "aws_s3_bucket"
    → member r.address (scan_resource targets s r).bucket_addresses ≡ true
unfolding scan_resource
member-scan_resource_self targets s r t = ground (
  arith,
  eq_iff r.type "aws_s3_bucket",
  eq_refl r.address,
  member-add r.address r.address s.bucket_addresses,
)

pub member-scan_resources :
    (targets : Dict String) (s : Scan) (rs : List PlannedResource) (a : String)
    → member a s.bucket_addresses ≡ true
    → member a (scan_resources targets s rs).bucket_addresses ≡ true
unfolding scan_resources
member-scan_resources targets s [] a h = h
member-scan_resources targets s (r ∷ rs) a h =
    member-scan_resources targets (scan_resource targets s r) rs a
      (member-scan_resource targets s r a h)

-- The loop has written down the address of every bucket.
pub bucket_scanned :
    (targets : Dict String) {r : PlannedResource} (s : Scan) {rs : List PlannedResource}
    → Memᴰ r rs
    → r.type ≡ "aws_s3_bucket"
    → member r.address (scan_resources targets s rs).bucket_addresses ≡ true
unfolding scan_resources
bucket_scanned targets {r} s (Memᴰ.head {x} {xs} e) t =
    member-scan_resources targets (scan_resource targets s x) xs r.address (
      subst (λ y. member r.address (scan_resource targets s y).bucket_addresses ≡ true) e
        (member-scan_resource_self targets s r t))
bucket_scanned targets s (Memᴰ.tail {x} m) t =
    bucket_scanned targets (scan_resource targets s x) m t
