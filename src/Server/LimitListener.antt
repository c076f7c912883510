-- ===== src/Server/LimitListener.antt =====
-- limitListener and limitedConn of cmd/api/serve.go. The semaphore channel is the number of values in
-- it; a goroutine may run between any two of its operations, so each is a step of its own.
use accountable.Prelude.{
  ℕ, zero, suc, ◌+◌, ◌-◌, ◌≤◌, Bool, true, false, ◌≡◌, refl, Option, none, some, List, [], ◌∷◌,
  if◌then◌else◌, ltb, arith,
}

abbrev pub max_connections : ℕ
max_connections = 128

-- Connections are listed newest first; `true` is one whose `once` has run.
pub record Listener : Type 0 where
  pub sem : ℕ
  pub accepting : ℕ
  pub connections : List Bool

-- A listener of newLimitListener, before anyone accepts.
abbrev pub new_limit_listener : Listener
new_limit_listener = record { sem = 0; accepting = 0; connections = [] }

-- l.sem <- struct{}{}, which waits while the channel is full
unfoldable pub acquire : ℕ → Listener → Option Listener
acquire maximum l =
    if ltb l.sem maximum
    then some (record l { sem = suc l.sem; accepting = suc l.accepting })
    else none

-- <-l.sem, which waits while the channel is empty
unfoldable pub release : Listener → Option Listener
release l = if ltb 0 l.sem then some (record l { sem = l.sem - 1 }) else none

-- The rest of Accept after the inner call returned: an error, or a connection.
unfoldable pub accept_failed : Listener → Option Listener
unfolding release
accept_failed l =
    if ltb 0 l.accepting then release (record l { accepting = l.accepting - 1 }) else none

unfoldable pub accept_succeeded : Listener → Option Listener
accept_succeeded l =
    if ltb 0 l.accepting
    then some (record l { accepting = l.accepting - 1; connections = false ∷ l.connections })
    else none

-- whether the connection's `once` has yet to run; `none` for no such connection
unfoldable pub is_closed : ℕ → List Bool → Option Bool
is_closed n [] = none
is_closed zero (c ∷ cs) = some c
is_closed (suc n) (c ∷ cs) = is_closed n cs

unfoldable pub mark : ℕ → List Bool → List Bool
mark n [] = []
mark zero (c ∷ cs) = true ∷ cs
mark (suc n) (c ∷ cs) = c ∷ mark n cs

-- c.once.Do(c.release)
unfoldable pub close : ℕ → Listener → Option Listener
unfolding is_closed mark release
close n l = elim (is_closed n l.connections) [
  | none ↦ none
  | some closed ↦
      if closed then some l else release (record l { connections = mark n l.connections })
]

module _ (maximum : ℕ) where
  pub data Step : Listener → Listener → Type 0 where
    acquires : {l m : Listener} → acquire maximum l ≡ some m → Step l m
    fails : {l m : Listener} → accept_failed l ≡ some m → Step l m
    succeeds : {l m : Listener} → accept_succeeded l ≡ some m → Step l m
    closes : {l m : Listener} (n : ℕ) → close n l ≡ some m → Step l m

  pub data Reachable : Listener → Type 0 where
    start : Reachable new_limit_listener
    step : {l m : Listener} → Reachable l → Step l m → Reachable m

-- The connections that are not closed.
unfoldable pub open_count : List Bool → ℕ
open_count [] = 0
open_count (c ∷ cs) = let rest = open_count cs in if c then rest else suc rest

open_count-mark :
    (n : ℕ) (cs : List Bool)
    → is_closed n cs ≡ some false
    → open_count cs ≡ suc (open_count (mark n cs))
unfolding open_count is_closed mark
open_count-mark n [] h = cc
open_count-mark zero (c ∷ cs) h = ground arith
open_count-mark (suc n) (c ∷ cs) h = ground (arith, open_count-mark n cs)

-- Every value in the channel belongs to a goroutine in Accept or to an open connection.
abbrev Balanced : ℕ → Listener → Type 0
Balanced maximum l = (l.sem ≡ l.accepting + open_count l.connections) × (l.sem ≤ maximum)

Balanced-Step :
    {maximum : ℕ} {l m : Listener} → Step maximum l m → Balanced maximum l → Balanced maximum m
unfolding acquire release accept_failed accept_succeeded close open_count
Balanced-Step (Step.acquires h) b = (ground arith, ground arith)
Balanced-Step (Step.fails h) b = (ground arith, ground arith)
Balanced-Step (Step.succeeds h) b = (ground arith, ground arith)
Balanced-Step (Step.closes {l} n h) b = (
  ground (arith, open_count-mark n l.connections),
  ground (arith, open_count-mark n l.connections),
)

Balanced-Reachable : {maximum : ℕ} {l : Listener} → Reachable maximum l → Balanced maximum l
unfolding open_count
Balanced-Reachable Reachable.start = (refl, omega arith)
Balanced-Reachable (Reachable.step r s) = Balanced-Step s (Balanced-Reachable r)

-- In every state that the listener reaches, the calls of Accept that got past the semaphore and the
-- connections that are not closed are together as many as the values in the channel, and at most
-- the maximum.
pub connections_bounded :
    (maximum : ℕ) (l : Listener)
    → Reachable maximum l
    → (l.accepting + open_count l.connections ≡ l.sem)
      × (l.accepting + open_count l.connections ≤ maximum)
connections_bounded maximum l r =
    let b = Balanced-Reachable r in (omega (arith, b.0), omega (arith, b.0, b.1))

is_closed-mark :
    (n : ℕ) (cs : List Bool) {c : Bool}
    → is_closed n cs ≡ some c
    → is_closed n (mark n cs) ≡ some true
unfolding is_closed mark
is_closed-mark n [] h = cc
is_closed-mark zero (c ∷ cs) h = refl
is_closed-mark (suc n) (c ∷ cs) h = is_closed-mark n cs h

-- What closing a connection leaves: it is closed, and its place in the channel is free again if this
-- was the first time.
pub record Closed (l : Listener) (n : ℕ) (closed : Bool) : Type 0 where
  pub after : Listener
  pub returns : close n l ≡ some after
  pub marked : is_closed n after.connections ≡ some true
  pub freed : l.sem ≡ (if closed then after.sem else suc after.sem)
  pub again : close n after ≡ some after

-- In every state that the listener reaches, closing one of its connections does not wait: it frees the
-- connection's place exactly if it was not closed before, and closing it again changes nothing.
pub close-Closed :
    (maximum : ℕ) (l : Listener)
    → Reachable maximum l
    → (n : ℕ) (closed : Bool) → is_closed n l.connections ≡ some closed
    → Closed l n closed
unfolding close release
close-Closed maximum l r n true h = record {
  after = l;
  returns = ground arith;
  marked = h;
  freed = refl;
  again = ground arith;
}
close-Closed maximum l r n false h =
    let b = Balanced-Reachable r in
    let counted = open_count-mark n l.connections h in
    let marked = is_closed-mark n l.connections h in
    record {
      after = record l { sem = l.sem - 1; connections = mark n l.connections };
      returns = ground (arith, b.0, counted);
      marked = marked;
      freed = omega (arith, b.0, counted);
      again = ground (arith, marked);
    }
