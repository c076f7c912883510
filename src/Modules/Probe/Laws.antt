-- ===== src/Modules/Probe/Laws.antt =====
-- What the architecture probe promises.
use accountable.Prelude.{
  ℕ, zero, suc, ◌+◌, ◌%◌, ◌^◌, ◌≤◌, ◌<◌, Bool, true, false, ◌&&◌, ◌||◌, ◌≡◌, ◌⊎◌, inl, inr, refl,
  Option, none, some, List, [], ◌∷◌, ◌++◌, err, ltb, leb, eqb, if◌then◌else◌, arith, Bool-cases,
  Option-cases,
}
use accountable.Go.{pos, negsuc, Duration, second, not_positive, int_ltb, IsWithin}
use accountable.Apierror.{Error, Environment}
use accountable.Modules.Probe.{invalid_request, or_default, wait, StreamCalls, stream_loop, stream}

within_of_guards :
    (delay : Duration)
    → not_positive delay || int_ltb (pos 30_000_000_000) delay ≡ false
    → IsWithin 1 30_000_000_000 delay
within_of_guards (pos n) h = ground arith
within_of_guards (negsuc n) h = cc

-- Wait starts no timer of zero or less or of more than 30 seconds: where it starts none it answers
-- with an invalid request.
pub wait_bounds :
    (env : Environment) (given : Option Duration) (done : Duration → Option Error)
    → let (answer, timer) = wait env given done in
      ((timer ≡ none) × (answer ≡ err (invalid_request env)))
      ⊎ ((delay : Duration) × (timer ≡ some delay) × IsWithin 1 30_000_000_000 delay)
unfolding wait
wait_bounds env given done =
    let delay = or_default (pos 10_000_000_000) given in
    elim (Bool-cases (not_positive delay || int_ltb (pos 30_000_000_000) delay)) [
      | inl bad ↦ rw bad (inl (refl, refl))
      | inr good ↦ rw good (inr (delay, refl, within_of_guards delay good))
    ]

-- 1, 2, ..., n
abbrev pub up_to : ℕ → List ℕ
up_to zero = []
up_to (suc n) = up_to n ++ (suc n ∷ [])

next_number : (sent : ℕ) → sent ≤ 20 → (suc sent + 1) % 2 ^ 32 ≡ suc (suc sent)
next_number sent h = ground arith

-- The loop has sent every number, or has returned the error of the pause or of the send at the number
-- after the last one that was sent.
abbrev pub LoopEnd : StreamCalls → ℕ → ℕ → Option Error → Type 0
LoopEnd calls count last error =
    ((error ≡ none) × (last ≡ count))
    ⊎ ((e : Error) × (error ≡ some e)
        × ((calls.pause (suc last) ≡ some e) ⊎ (calls.send (suc last) ≡ some e)))

-- A run of the loop from the number after those that were sent.
stream_loop_lem :
    (calls : StreamCalls) (pauses : Bool) (count fuel sent : ℕ)
    → count ≤ 20
    → sent ≤ count
    → count < sent + fuel
    → (last : ℕ) × (error : Option Error) × (stream_loop calls pauses count fuel
          (suc sent)
          (up_to sent)
        ≡ some (error, up_to last))
      × (last ≤ count)
      × LoopEnd calls count last error
unfolding stream_loop
stream_loop_lem calls pauses count zero sent c s f = absurd (omega arith)
stream_loop_lem calls pauses count (suc fuel) sent c s f =
    let paused = if ltb 1 (suc sent) && pauses then calls.pause (suc sent) else none in
    elim (Bool-cases (leb (suc sent) count)) [
      | inr over ↦ (sent, none, rw over refl, s, inl (refl, ground arith))
      | inl more ↦ elim (Option-cases paused) [
        | inr (e, p) ↦ (sent, some e, rw (more, p) refl, s, inr (e, refl, inl (ground arith)))
        | inl fired ↦ elim (Option-cases (calls.send (suc sent))) [
          | inr (e, q) ↦ (sent, some e, rw (more, fired, q) refl, s, inr (e, refl, inr q))
          | inl passed ↦
              let (last, error, same, l, k) =
                stream_loop_lem calls pauses count fuel (suc sent) c (ground arith) (omega arith) in
              (
                last,
                error,
                rw (more, fired, passed, next_number sent (omega (arith, c, s))) same,
                l,
                k,
              )
        ]
      ]
    ]

pub interval_within :
    (interval : Duration)
    → int_ltb interval (pos 0) || int_ltb (pos second) interval ≡ false
    → IsWithin 0 1_000_000_000 interval
interval_within (pos n) h = ground arith
interval_within (negsuc n) h = cc

interval_outside :
    (interval : Duration)
    → int_ltb interval (pos 0) || int_ltb (pos second) interval ≡ true
    → ¬ IsWithin 0 1_000_000_000 interval
interval_outside (pos n) h = λ w. ground arith
interval_outside (negsuc n) h = λ w. absurd w

-- With fuel for more than the count, Stream returns. Where the count is 0 or more than 20, or the
-- interval (25 milliseconds when none is given) is negative or longer than a second, it answers with
-- an invalid request and sends nothing. Otherwise it sends the numbers 1, 2, and so on in order, all
-- up to the count when it returns no error, and else up to the one before a number whose pause or
-- send has the error that it returns.
pub stream_sound :
    (calls : StreamCalls) (env : Environment) (fuel count : ℕ) (given : Option Duration)
    → count < fuel
    → let interval = or_default (pos 25_000_000) given in
      (((count ≡ 0) ⊎ (20 < count) ⊎ (¬ IsWithin 0 1_000_000_000 interval))
        × (stream calls env fuel count given ≡ some (some (invalid_request env), [])))
      ⊎ ((last : ℕ) × (error : Option Error) × (stream calls env fuel count given
            ≡ some (error, up_to last))
          × (1 ≤ count)
          × (count ≤ 20)
          × IsWithin 0 1_000_000_000 interval
          × (last ≤ count)
          × LoopEnd calls count last error)
unfolding stream
stream_sound calls env fuel count given f = elim (Bool-cases (eqb count 0 || ltb 20 count)) [
  | inl bad ↦ inl (
    elim (Bool-cases (eqb count 0)) [
      | inl none_asked ↦ inl (ground arith)
      | inr some_asked ↦ inr (inl (ground arith))
    ],
    rw bad refl,
  )
  | inr counted ↦
      let interval = or_default (pos 25_000_000) given in
      elim (Bool-cases (int_ltb interval (pos 0) || int_ltb (pos second) interval)) [
        | inl bad ↦ inl (inr (inr (interval_outside interval bad)), rw (counted, bad) refl)
        | inr good ↦
            let (last, error, same, l, end) =
              stream_loop_lem calls (int_ltb (pos 0) interval) count fuel 0 (ground arith)
                (omega arith) (omega arith) in
            inr (
              last,
              error,
              rw (counted, good) same,
              ground arith,
              ground arith,
              interval_within interval good,
              l,
              end,
            )
      ]
]
