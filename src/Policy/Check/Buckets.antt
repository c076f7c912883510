-- ===== src/Policy/Check/Buckets.antt =====
-- Every bucket that passes is covered by a complete public-access block.
use mathlib.Core.Path.{subst}
use mathlib.Core.List.{Memᴰ}
use accountable.Prelude.{
  append-eq-nil, String, Bool, true, false, not, ◌&&◌, ◌≡◌, ◌⊎◌, inl, inr, refl, List, [], ◌∷◌, All,
  some, ◌==◌, if◌then◌else◌, arith, eq_iff, Bool-cases,
}
use accountable.Maps.{Dict, lookup, member, All-lookup, All-member}
use accountable.Policy.{Violation, PlannedResource}
use accountable.Policy.Check.{
  Scan, scan_resources, empty_scan, unblocked, named_bucket_violations, address_violations,
  has_known_name,
}
use accountable.Policy.Check.Scanning.{
  BlocksName, BlocksAddress, HasName, Means, Means-empty_scan, Means-scan_resources, bucket_scanned,
}

listed-All :
    (resources rs : List PlannedResource)
    → ((r : PlannedResource) → Memᴰ r rs → Memᴰ r resources)
    → All (λ r. Memᴰ r resources) rs
listed-All resources [] f = tt
listed-All resources (r ∷ rs) f =
    (f r (Memᴰ.head refl), listed-All resources rs (λ x m. f x (Memᴰ.tail m)))

if-eq-nil : (b : Bool) (v : Violation) → (if b then v ∷ [] else []) ≡ [] → b ≡ false
if-eq-nil true v h = cc
if-eq-nil false v h = refl

-- What the last two loops find nothing against.
abbrev NameCovered : Scan → String × String → Type 0
NameCovered s e =
    (lookup e.0 s.public_access_blocks ≡ some true)
    ⊎ (member e.1 s.protected_bucket_addresses ≡ true)

abbrev AddressCovered : Scan → String → Type 0
AddressCovered s address =
    (has_known_name s.buckets address ≡ true) ⊎ (member address s.protected_bucket_addresses ≡ true)

name_covered :
    (s : Scan) (bucket address : String)
    → (unblocked (lookup bucket s.public_access_blocks)
        && not (member address s.protected_bucket_addresses))
      ≡ false
    → NameCovered s (bucket, address)
name_covered s bucket address h = ground arith

named_bucket_violations_sound :
    (s : Scan) (buckets : Dict String)
    → named_bucket_violations s buckets ≡ []
    → All (NameCovered s) buckets
unfolding named_bucket_violations
named_bucket_violations_sound s [] h = tt
named_bucket_violations_sound s ((bucket, address) ∷ rest) h =
    let (here, later) = append-eq-nil _ (named_bucket_violations s rest) h in
    (name_covered s bucket address (if-eq-nil _ _ here), named_bucket_violations_sound s rest later)

address_violations_sound :
    (s : Scan) (addresses : List String)
    → address_violations s addresses ≡ []
    → All (AddressCovered s) addresses
unfolding address_violations
address_violations_sound s [] h = tt
address_violations_sound s (address ∷ rest) h =
    let (here, later) = append-eq-nil _ (address_violations s rest) h in
    (ground (arith, if-eq-nil _ _ here), address_violations_sound s rest later)

-- An entry that a search finds, with what holds of it.
any_entry {ℓ} :
    (P : String × String → Type ℓ) (address : String) (entries : Dict String)
    → All P entries
    → has_known_name entries address ≡ true
    → (name : String) × P (name, address)
unfolding has_known_name
any_entry P address [] h e = cc
any_entry P address ((name, a) ∷ rest) h e = elim (Bool-cases (a == address)) [
  | inl same ↦ (name, subst (λ x. P (name, x)) ((eq_iff a address).0 same) h.0)
  | inr other ↦ any_entry P address rest h.1 (ground arith)
]

All-both {ℓ κ μ} :
    {A : Type ℓ} (P : A → Type κ) (Q : A → Type μ) (xs : List A)
    → All P xs
    → All Q xs
    → All (λ x. P x × Q x) xs
All-both P Q [] h k = tt
All-both P Q (x ∷ xs) h k = ((h.0, k.0), All-both P Q xs h.1 k.1)

-- A complete block names the bucket's address, or names the bucket that the plan has there.
abbrev pub Covered : Dict String → List PlannedResource → String → Type 0
Covered targets resources address =
    BlocksAddress targets resources address
    ⊎ ((name : String) × HasName targets resources name address × BlocksName targets resources name)

module _ (targets : Dict String) (resources : List PlannedResource)
    (named : named_bucket_violations
        (scan_resources targets empty_scan resources)
        (scan_resources targets empty_scan resources).buckets
      ≡ [])
    (addressed : address_violations
        (scan_resources targets empty_scan resources)
        (scan_resources targets empty_scan resources).bucket_addresses
      ≡ []) where
  final-Means : Means targets resources (scan_resources targets empty_scan resources)
  final-Means =
      Means-scan_resources targets resources empty_scan resources
        (listed-All resources resources (λ r m. m)) (Means-empty_scan targets resources)

  protected-Covered :
      (address : String)
      → member address (scan_resources targets empty_scan resources).protected_bucket_addresses
        ≡ true
      → Covered targets resources address
  protected-Covered address h = inl (All-member _ address _ final-Means.protected h)

  known-Covered :
      (address : String)
      → has_known_name (scan_resources targets empty_scan resources).buckets address ≡ true
      → Covered targets resources address
  known-Covered address h =
      let s = scan_resources targets empty_scan resources in
      let covered = named_bucket_violations_sound s s.buckets named in
      let (name, both) =
        any_entry (λ e. HasName targets resources e.0 e.1 × NameCovered s e) address s.buckets
          (All-both _ (NameCovered s) s.buckets final-Means.buckets covered) h in
      elim both.1 [
        | inl blocked ↦
            inr (
              name,
              both.0,
              All-lookup _ name s.public_access_blocks final-Means.blocks blocked refl,
            )
        | inr protected ↦ protected-Covered address protected
      ]

  pub bucket-Covered :
      {r : PlannedResource}
      → Memᴰ r resources
      → r.type ≡ "aws_s3_bucket"
      → Covered targets resources r.address
  bucket-Covered {r} m t =
      let s = scan_resources targets empty_scan resources in
      elim (All-member (AddressCovered s) r.address s.bucket_addresses
        (address_violations_sound s s.bucket_addresses addressed)
        (bucket_scanned targets empty_scan m t)) [
          | inl known ↦ known-Covered r.address known
          | inr protected ↦ protected-Covered r.address protected
        ]
