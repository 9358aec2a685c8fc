-- ===== src/Ingest/Reconnect.antt =====
-- `run` of ingest/async_ingestor.py: its connections, its backoff in seconds and its limit.
use mathlib.Core.List.{append_assoc, append-nil}
use post_trade_reconciliatio.Prelude.{
  ℕ, zero, suc, ◌+◌, ◌*◌, ◌≤◌, ◌≡◌, ap, sym, ◌∙◌, Bool, true, Option, none, some, List, [], ◌∷◌,
  ◌++◌, leb, min, if◌then◌else◌, arith, All, All-snoc, length, length-append, Bool-cases, inl, inr,
}

-- How an attempt to connect ends: no connection, one that breaks after the subscription, or one
-- whose messages end without an error.
pub data Connection : Type 0 where
  refused dropped closed : Connection

pub record Loop : Type 0 where
  pub backoff : ℕ
  pub attempts : ℕ
  pub sleeps : List ℕ

abbrev pub max_backoff : ℕ
max_backoff = 30

abbrev pub first : Loop
first = record { backoff = 1; attempts = 0; sleeps = [] }

-- What the `except` does.
abbrev pub disconnected : Loop → Loop
disconnected l = record {
  attempts = l.attempts + 1;
  sleeps = l.sleeps ++ l.backoff ∷ [];
  backoff = min (l.backoff * 2) max_backoff;
}

unfoldable pub connect : Connection → Loop → Loop
connect refused l = disconnected l
connect dropped l = disconnected (record l { backoff = 1 })
connect closed l = record l { backoff = 1 }

-- `max_reconnects is None or attempts <= max_reconnects`
abbrev pub tries : Option ℕ → ℕ → Bool
tries none attempts = true
tries (some max_reconnects) attempts = leb attempts max_reconnects

unfoldable pub run_loop : Option ℕ → List Connection → Loop → Loop
unfolding connect
run_loop max_reconnects [] l = l
run_loop max_reconnects (c ∷ connections) l =
    let rest = run_loop max_reconnects connections (connect c l) in
    if tries max_reconnects l.attempts then rest else l

abbrev pub IsPause : ℕ → Type 0
IsPause n = (1 ≤ n) × (n ≤ max_backoff)

-- The attempts stay within one above the limit.
abbrev pub IsTried : Option ℕ → ℕ → Type 0
IsTried none n = Unit
IsTried (some max_reconnects) n = n ≤ max_reconnects + 1

pub record IsPatient (limit : Option ℕ) (l : Loop) : Type 0 where
  pub next : IsPause l.backoff
  pub slept : All IsPause l.sleeps
  pub each : length l.sleeps ≡ l.attempts
  pub tried : IsTried limit l.attempts

IsTried-suc : (limit : Option ℕ) (n : ℕ) → tries limit n ≡ true → IsTried limit (n + 1)
IsTried-suc none n e = tt
IsTried-suc (some limit) n e = ground (arith, e)

disconnected-IsPatient :
    (limit : Option ℕ) (l : Loop)
    → IsPatient limit l
    → tries limit l.attempts ≡ true
    → IsPatient limit (disconnected l)
disconnected-IsPatient limit l h e = record {
  next = (omega (arith, h.next.0), omega arith);
  slept = All-snoc IsPause l.backoff l.sleeps h.slept h.next;
  each = length-append l.sleeps (l.backoff ∷ []) ∙ ap (λ n. n + 1) h.each;
  tried = IsTried-suc limit l.attempts e;
}

reset-IsPatient :
    (limit : Option ℕ) (l : Loop) → IsPatient limit l → IsPatient limit (record l { backoff = 1 })
reset-IsPatient limit l h = record {
  next = (omega arith, omega arith);
  slept = h.slept;
  each = h.each;
  tried = h.tried;
}

connect-IsPatient :
    (limit : Option ℕ) (c : Connection) (l : Loop)
    → IsPatient limit l
    → tries limit l.attempts ≡ true
    → IsPatient limit (connect c l)
unfolding connect
connect-IsPatient limit refused l h e = disconnected-IsPatient limit l h e
connect-IsPatient limit dropped l h e =
    disconnected-IsPatient limit (record l { backoff = 1 }) (reset-IsPatient limit l h) e
connect-IsPatient limit closed l h e = reset-IsPatient limit l h

-- However its connections end, the loop sleeps once for each that fails, for 1 to 30 seconds each
-- time, and with a limit on the reconnects fails at most once more than the limit.
pub run_loop-IsPatient :
    (limit : Option ℕ) (connections : List Connection) (l : Loop)
    → IsPatient limit l
    → IsPatient limit (run_loop limit connections l)
unfolding run_loop
run_loop-IsPatient limit [] l h = h
run_loop-IsPatient limit (c ∷ connections) l h = elim (Bool-cases (tries limit l.attempts)) [
  | inl e ↦
      rw e (run_loop-IsPatient limit connections (connect c l) (connect-IsPatient limit c l h e))
  | inr e ↦ rw e h
]

-- n refusals in a row
abbrev pub refusals : ℕ → List Connection
refusals zero = []
refusals (suc n) = refused ∷ refusals n

abbrev two_to : ℕ → ℕ
two_to zero = 1
two_to (suc n) = two_to n * 2

-- The powers of two from the i-th on, none above 30.
abbrev doubling : ℕ → ℕ → List ℕ
doubling i zero = []
doubling i (suc n) = min (two_to i) 30 ∷ doubling (suc i) n

-- With no limit, connections that are refused in a row are waited for 1, 2, 4 and so on seconds,
-- and 30 from the sixth on: from a backoff of the i-th power of two, or 30 if that is less, the
-- sleeps of n refusals are the next n such numbers.
run_loop-doubling :
    (n i : ℕ) (l : Loop)
    → l.backoff ≡ min (two_to i) 30
    → (run_loop none (refusals n) l).sleeps ≡ l.sleeps ++ doubling i n
unfolding run_loop connect
run_loop-doubling zero i l e = sym (append-nil l.sleeps)
run_loop-doubling (suc n) i l e =
    let next : min (l.backoff * 2) 30 ≡ min (two_to i * 2) 30 = omega (arith, e) in
    run_loop-doubling n (suc i) (disconnected l) next
    ∙ append_assoc l.sleeps (l.backoff ∷ []) (doubling (suc i) n)
    ∙ ap (λ b. l.sleeps ++ b ∷ doubling (suc i) n) e
