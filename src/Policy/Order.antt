-- ===== src/Policy/Order.antt =====
-- The sort.Slice call of Evaluate in internal/tofupolicy/policy.go: the order of violations, by
-- address and then by message. Two violations that neither precedes the other are equal, so the
-- sorted slice does not depend on the algorithm; it is insertion here.
use Prim.Native.Char.{code}
use mathlib.Core.HLevel.{hedberg}
use mathlib.Core.List.{Perm, foldr}
use mathlib.Core.List.Perm
use text.Mathlib.TextEquality.{Char-path}
use accountable.Prelude.{
  String, Bool, true, false, ◌&&◌, ◌||◌, ◌≡◌, refl, ap, ◌∙◌, List, [], ◌∷◌, All, ltb, eqb, ◌==◌,
  eq_iff, if◌then◌else◌, arith, Bool-cases, inl, inr,
}
use accountable.Policy.{Violation}

-- The `<` of Go strings. Bytes of UTF-8 are ordered as code points are.
unfoldable pub string_ltb : String → String → Bool
string_ltb String.[] String.[] = false
string_ltb String.[] (String.◌∷◌ d t) = true
string_ltb (String.◌∷◌ c s) String.[] = false
string_ltb (String.◌∷◌ c s) (String.◌∷◌ d t) =
    ltb (code c) (code d) || eqb (code c) (code d) && string_ltb s t

string_ltb_connex : (s t : String) → string_ltb s t ≡ false → string_ltb t s ≡ false → s ≡ t
unfolding string_ltb
string_ltb_connex String.[] String.[] h k = refl
string_ltb_connex String.[] (String.◌∷◌ d t) h k = cc
string_ltb_connex (String.◌∷◌ c s) String.[] h k = cc
string_ltb_connex (String.◌∷◌ c s) (String.◌∷◌ d t) h k =
    ap (λ x. String.◌∷◌ x s) (Char-path c d (ground arith))
    ∙ ap (String.◌∷◌ d) (string_ltb_connex s t (ground arith) (ground arith))

string_ltb_asymm : (s t : String) → string_ltb s t ≡ true → string_ltb t s ≡ false
unfolding string_ltb
string_ltb_asymm String.[] String.[] h = cc
string_ltb_asymm String.[] (String.◌∷◌ d t) h = refl
string_ltb_asymm (String.◌∷◌ c s) String.[] h = cc
string_ltb_asymm (String.◌∷◌ c s) (String.◌∷◌ d t) h = ground (arith, string_ltb_asymm s t)

string_ltb_trans :
    (s t u : String) → string_ltb s t ≡ true → string_ltb t u ≡ true → string_ltb s u ≡ true
unfolding string_ltb
string_ltb_trans s String.[] String.[] h k = cc
string_ltb_trans s (String.◌∷◌ d t) String.[] h k = cc
string_ltb_trans String.[] String.[] (String.◌∷◌ e u) h k = cc
string_ltb_trans (String.◌∷◌ c s) String.[] (String.◌∷◌ e u) h k = cc
string_ltb_trans String.[] (String.◌∷◌ d t) (String.◌∷◌ e u) h k = refl
string_ltb_trans (String.◌∷◌ c s) (String.◌∷◌ d t) (String.◌∷◌ e u) h k =
    ground (arith, string_ltb_trans s t u)

-- The comparison that Evaluate passes to sort.Slice.
unfoldable pub precedes : Violation → Violation → Bool
precedes v w =
    if v.address == w.address
    then string_ltb v.message w.message
    else string_ltb v.address w.address

precedes_asymm : (v w : Violation) → precedes v w ≡ true → precedes w v ≡ false
unfolding precedes
precedes_asymm v w h = ground (
  arith,
  eq_iff v.address w.address,
  eq_iff w.address v.address,
  string_ltb_asymm v.message w.message,
  string_ltb_asymm v.address w.address,
)

precedes_connex : (v w : Violation) → precedes v w ≡ false → precedes w v ≡ false → v ≡ w
unfolding precedes
precedes_connex v w h k =
    let a : v.address ≡ w.address = ground (
      arith,
      eq_iff v.address w.address,
      eq_iff w.address v.address,
      string_ltb_connex v.address w.address,
    ) in
    let m : v.message ≡ w.message = ground (
      arith,
      eq_iff v.address w.address,
      eq_iff w.address v.address,
      string_ltb_connex v.message w.message,
    ) in
    λ i. record { address = a i; message = m i }

precedes_trans :
    (u v w : Violation) → precedes u v ≡ true → precedes v w ≡ true → precedes u w ≡ true
unfolding precedes
precedes_trans u v w h k = ground (
  arith,
  eq_iff u.address v.address,
  eq_iff v.address w.address,
  eq_iff u.address w.address,
  string_ltb_trans u.message v.message w.message,
  string_ltb_trans u.address v.address w.address,
  string_ltb_asymm u.address v.address,
)

unfoldable pub insert_violation : Violation → List Violation → List Violation
insert_violation v [] = v ∷ []
insert_violation v (w ∷ ws) =
    let rest = insert_violation v ws in if precedes w v then w ∷ rest else v ∷ w ∷ ws

unfoldable pub sort_violations : List Violation → List Violation
sort_violations violations = foldr insert_violation [] violations

insert_violation_comm :
    (u v : Violation) (ws : List Violation)
    → insert_violation u (insert_violation v ws) ≡ insert_violation v (insert_violation u ws)
unfolding insert_violation
insert_violation_comm u v [] = ground (arith, precedes_asymm u v, precedes_connex u v)
insert_violation_comm u v (w ∷ ws) = ground (
  arith,
  precedes_asymm u v,
  precedes_connex u v,
  precedes_trans w u v,
  precedes_trans w v u,
  insert_violation_comm u v ws,
)

String-Discrete : Discrete String
String-Discrete s t = elim (Bool-cases (s == t)) [
  | inl e ↦ yes ((eq_iff s t).0 e)
  | inr e ↦ no (λ p. ground (arith, eq_iff s t))
]

String-IsSet : IsSet String
String-IsSet = hedberg String-Discrete

Violations-IsSet : IsSet (List Violation)
Violations-IsSet = hlevel (String-IsSet)

-- The sorted violations do not depend on the order in which they were found.
pub sort_violations-perm :
    {vs ws : List Violation} → Perm vs ws → sort_violations vs ≡ sort_violations ws
unfolding sort_violations
sort_violations-perm p = Perm.foldr-eq Violations-IsSet insert_violation insert_violation_comm p []

insert_violation-perm :
    (v : Violation) (ws : List Violation) → Perm (insert_violation v ws) (v ∷ ws)
unfolding insert_violation
insert_violation-perm v [] = Perm.rfl
insert_violation-perm v (w ∷ ws) = elim (Bool-cases (precedes w v)) [
  | inl e ↦ rw e (Perm.trans (Perm.cons w (insert_violation-perm v ws)) (Perm.swap v w ws))
  | inr e ↦ rw e Perm.rfl
]

-- The sorted violations are the violations.
pub sort_violations-perm_self : (vs : List Violation) → Perm (sort_violations vs) vs
unfolding sort_violations
sort_violations-perm_self [] = Perm.rfl
sort_violations-perm_self (v ∷ vs) =
    Perm.trans (insert_violation-perm v (sort_violations vs))
      (Perm.cons v (sort_violations-perm_self vs))

-- No later violation precedes an earlier one.
abbrev pub Ordered : List Violation → Type 0
Ordered [] = Unit
Ordered (v ∷ vs) = All (λ w. precedes w v ≡ false) vs × Ordered vs

All-insert_violation {ℓ} :
    (P : Violation → Type ℓ) (v : Violation) (ws : List Violation)
    → P v
    → All P ws
    → All P (insert_violation v ws)
unfolding insert_violation
All-insert_violation P v [] p h = (p, tt)
All-insert_violation P v (w ∷ ws) p h = elim (Bool-cases (precedes w v)) [
  | inl e ↦ rw e (h.0, All-insert_violation P v ws p h.1)
  | inr e ↦ rw e (p, h)
]

not_before :
    (v w : Violation) (ws : List Violation)
    → precedes w v ≡ false
    → All (λ x. precedes x w ≡ false) ws
    → All (λ x. precedes x v ≡ false) ws
not_before v w [] e h = tt
not_before v w (x ∷ ws) e h = (
  ground (arith, precedes_trans x v w, precedes_connex v w, precedes_asymm x v, h.0),
  not_before v w ws e h.1,
)

Ordered-insert_violation :
    (v : Violation) (ws : List Violation) → Ordered ws → Ordered (insert_violation v ws)
unfolding insert_violation
Ordered-insert_violation v [] h = (tt, tt)
Ordered-insert_violation v (w ∷ ws) h = elim (Bool-cases (precedes w v)) [
  | inl e ↦ rw e (
    All-insert_violation (λ x. precedes x w ≡ false) v ws (precedes_asymm w v e) h.0,
    Ordered-insert_violation v ws h.1,
  )
  | inr e ↦ rw e ((e, not_before v w ws e h.0), h)
]

pub sort_violations-Ordered : (vs : List Violation) → Ordered (sort_violations vs)
unfolding sort_violations
sort_violations-Ordered [] = tt
sort_violations-Ordered (v ∷ vs) =
    Ordered-insert_violation v (sort_violations vs) (sort_violations-Ordered vs)
