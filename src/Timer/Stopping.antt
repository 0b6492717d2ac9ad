-- ===== src/Timer/Stopping.antt =====
-- After `stop()` has cleared `running`, the timer's function is not begun again, and the thread ends
-- with its next step.
use spkdfs.Prelude.{◌≡◌, ◌≢◌, refl, sym, ap, ◌∙◌, Bool, true, false, ◌⊎◌, inl, inr}
use spkdfs.Timer.{
  Thread, starting, waiting, in_run_func, finished, terminated, idle, flagged, joined, Timer,
  new_timer, loop_head, woken, free_mutex, Step, locks, wakes, returns, times_out, escapes, stops,
  joins, Steps, none_yet, then_step,
}

-- The caller of `stop()` is behind its first block.
record IsStopped (t : Timer) : Type 0 where
  not_running : t.running ≡ false
  free : free_mutex t.thread ≡ true
  past : (t.stopper ≡ flagged) ⊎ (t.stopper ≡ joined)

-- The function is not running where the mutex is free.
not_in_run_func : {t : Timer} → IsStopped t → t.thread ≢ in_run_func
unfolding free_mutex
not_in_run_func s e = cc (sym s.free ∙ ap free_mutex e)

-- A stopped timer that goes to the end of its thread.
finished-IsStopped :
    (t : Timer) (x : Thread) → x ≡ finished → IsStopped t → IsStopped (record t { thread = x })
unfolding free_mutex
finished-IsStopped t x e s = record {
  not_running = s.not_running;
  free = ap free_mutex e;
  past = s.past;
}

woken_stopper : (t : Timer) (b : Bool) → (woken t b).stopper ≡ t.stopper
unfolding woken
woken_stopper t true = refl
woken_stopper t false = refl

woken-finished : (t : Timer) (b : Bool) → b ≡ false → (woken t b).thread ≡ finished
unfolding woken
woken-finished t true e = cc
woken-finished t false e = refl

woken-IsStopped :
    (t : Timer) (b : Bool)
    → b ≡ false
    → IsStopped t
    → IsStopped (woken t b) × ((woken t b).runs ≡ t.runs)
unfolding woken
woken-IsStopped t true e s = absurd (cc)
woken-IsStopped t false e s = (finished-IsStopped t finished refl s, refl)

-- A step of a stopped timer begins no run.
Step-IsStopped : {t u : Timer} → Step t u → IsStopped t → IsStopped u × (u.runs ≡ t.runs)
unfolding loop_head
Step-IsStopped {t} (locks e) s =
    (finished-IsStopped t (loop_head t.running) (ap loop_head s.not_running) s, refl)
Step-IsStopped {t} (wakes e) s = woken-IsStopped t t.running s.not_running s
Step-IsStopped (returns e) s = absurd (not_in_run_func s e)
Step-IsStopped (times_out e) s = absurd (not_in_run_func s e)
Step-IsStopped (escapes e) s = absurd (not_in_run_func s e)
Step-IsStopped (stops i m) s = (record { not_running = refl; free = m; past = inl refl }, refl)
Step-IsStopped (joins f e) s =
    (record { not_running = s.not_running; free = s.free; past = inr refl }, refl)

-- In every state `stop()` was not called yet, or the timer is stopped.
Steps-Kept : {t : Timer} → Steps new_timer t → (t.stopper ≡ idle) ⊎ IsStopped t
Steps-Kept none_yet = inl refl
Steps-Kept (then_step reached step) = go step (Steps-Kept reached)
  where
    go :
        {u v : Timer}
        → Step u v
        → (u.stopper ≡ idle) ⊎ IsStopped u
        → (v.stopper ≡ idle) ⊎ IsStopped v
    go step (inr s) = inr (Step-IsStopped step s).0
    go (locks e) (inl i) = inl i
    go {u} (wakes e) (inl i) = inl (woken_stopper u u.running ∙ i)
    go (returns e) (inl i) = inl i
    go (times_out e) (inl i) = inl i
    go (escapes e) (inl i) = inl i
    go (stops i m) (inl i') = inr (record { not_running = refl; free = m; past = inl refl })
    go (joins f e) (inl i) = absurd (cc (sym f ∙ i))

Steps-IsStopped : {t u : Timer} → IsStopped t → Steps t u → IsStopped u × (u.runs ≡ t.runs)
Steps-IsStopped s none_yet = (s, refl)
Steps-IsStopped s (then_step reached step) =
    let (r, same) = Steps-IsStopped s reached in
    let (r', same') = Step-IsStopped step r in (r', same' ∙ same)

-- Once the thread of a stopped timer has run its next step, `stop()` returns.
can_join :
    (u : Timer)
    → IsStopped u
    → (u.thread ≡ terminated) ⊎ ((v : Timer) × Steps u v × (v.stopper ≡ joined))
unfolding loop_head
can_join u s = elim s.past [ inr j ↦ inr (u, none_yet, j) | inl f ↦ go u.thread refl f ]
  where
    go :
        (x : Thread)
        → u.thread ≡ x
        → u.stopper ≡ flagged
        → (u.thread ≡ terminated) ⊎ ((v : Timer) × Steps u v × (v.stopper ≡ joined))
    go starting e f =
        inr
          (_, then_step (then_step none_yet (locks e)) (joins f (ap loop_head s.not_running)), refl)
    go waiting e f = inr (
      _,
      then_step (then_step none_yet (wakes e))
          (joins (woken_stopper u u.running ∙ f) (woken-finished u u.running s.not_running)),
      refl,
    )
    go in_run_func e f = absurd (not_in_run_func s e)
    go finished e f = inr (_, then_step none_yet (joins f e), refl)
    go terminated e f = inl e

-- From a state that a timer has come to, if `stop()` has cleared `running`: whatever the two threads
-- do from then on, no run of the timer's function begins and none is going on, and `stop()` can
-- return, if no exception had left the timer's thread.
pub stop_ends :
    {t u : Timer}
    → Steps new_timer t
    → t.stopper ≡ flagged
    → Steps t u
    → (u.runs ≡ t.runs)
      × (u.thread ≢ in_run_func)
      × ((u.thread ≡ terminated) ⊎ ((v : Timer) × Steps u v × (v.stopper ≡ joined)))
stop_ends reached called later = elim (Steps-Kept reached) [
  | inl i ↦ absurd (cc (sym i ∙ called))
  | inr s ↦ let (r, same) = Steps-IsStopped s later in (same, not_in_run_func r, can_join _ r)
]
