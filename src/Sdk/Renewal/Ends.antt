-- ===== src/Sdk/Renewal/Ends.antt =====
-- A renewal ends, after four attempts at most.
use spkdfs.Prelude.{
  ◌≡◌, ◌≢◌, refl, ℕ, zero, suc, ◌+◌, ◌≤◌, Option, none, some, List, [], ◌∷◌, Bool-cases, inl, inr,
  arith, leb,
}
use spkdfs.Exn.{Text, Result, ok, throw, abort}
use spkdfs.Sdk.Renewal.{
  Master, Renewed, renewed, timed_out, broken, attempt, after_attempt, retry_loop, start_renewal,
  renew,
}

module _ (M : Master) where
  go_on : (M.State → Option M.State) → M.State × Result (Unit {0}) → Option M.State
  go_on rest (s, throw e) = rest s
  go_on rest (s, ok done) = none
  go_on rest (s, abort) = none

  -- The state after so many attempts, if each of them throws.
  unfoldable pub failing : ℕ → M.State → Option M.State
  unfolding go_on
  failing zero s = some s
  failing (suc n) s = go_on (failing n) (attempt M s)

  -- What the attempt after `k` failures decides: it is the last one if it does not throw, and also
  -- if it does after three failures.
  abbrev pub Decides : ℕ → M.State × Result (Unit {0}) → Renewed M.State → Type 0
  Decides k (s, ok done) r = r ≡ renewed s
  Decides k (s, throw e) r = (k ≡ 3) × (r ≡ timed_out s e)
  Decides k (s, abort) r = r ≡ broken

  -- A loop with `n` failures behind it ends with what its last attempt decides.
  abbrev EndsAt : (fuel n : ℕ) → M.State → Type 0
  EndsAt fuel n s =
      (k : ℕ) × (t : M.State) × (r : Renewed M.State) × (n + k ≤ 3)
      × (failing k s ≡ some t)
      × Decides (n + k) (attempt M t) r
      × (retry_loop M fuel n s ≡ some r)

  -- The next attempt is the last one.
  last_attempt :
      (fuel n : ℕ) (s : M.State) (r : Renewed M.State)
      → n ≤ 3
      → Decides n (attempt M s) r
      → retry_loop M (suc fuel) n s ≡ some r
      → EndsAt (suc fuel) n s
  unfolding failing
  last_attempt fuel n s r few d e =
      let same : n + 0 ≡ n = omega arith in (0, s, r, rw same few, refl, rw same d, e)

  retry_loop_ends : (fuel n : ℕ) (s : M.State) → n ≤ 3 → 4 ≤ fuel + n → EndsAt fuel n s
  unfolding retry_loop after_attempt failing go_on
  retry_loop_ends zero n s few enough = absurd (omega (arith, few, enough))
  retry_loop_ends (suc fuel) n s few enough =
      go (attempt M s) refl
        (λ s' less. retry_loop_ends fuel (suc n) s' less (omega (arith, enough)))
    where
      go :
          (a : M.State × Result (Unit {0}))
          → attempt M s ≡ a
          → ((s' : M.State) → suc n ≤ 3 → EndsAt fuel (suc n) s')
          → EndsAt (suc fuel) n s
      go (s', ok done) e ih = last_attempt fuel n s (renewed s') few (rw e refl) (rw e)
      go (s', abort) e ih = last_attempt fuel n s broken few (rw e refl) (rw e)
      go (s', throw x) e ih = elim (Bool-cases (leb 3 n)) [
        | inl q ↦
            let last : n ≡ 3 = ground (arith, few, q) in
            last_attempt fuel n s (timed_out s' x) few (rw e (last, refl)) (rw (e, q))
        | inr q ↦
            let less : suc n ≤ 3 = ground (arith, few, q) in
            let (k, t, r, bound, fails, decides, ends) = ih s' less in
            let shift : n + suc k ≡ suc n + k = omega arith in
            (suc k, t, r, rw shift bound, rw e fails, rw shift decides, rw (e, q) ends)
      ]

  -- Where some path is locked at the namenode, a renewal makes four attempts at most: the first that
  -- does not throw ends it, and if all four throw it ends with the last one's exception. Fuel for
  -- four attempts is enough, whatever the namenode answers.
  pub renew_ends :
      (fuel : ℕ) (s : M.State)
      → 4 ≤ fuel
      → M.remote_locks s ≢ []
      → (k : ℕ) × (t : M.State) × (r : Renewed M.State) × (k ≤ 3)
        × (failing k s ≡ some t)
        × Decides k (attempt M t) r
        × (renew M fuel s ≡ some r)
  unfolding renew
  renew_ends fuel s enough locked = go (M.remote_locks s) locked
    where
      go :
          (paths : List Text)
          → paths ≢ []
          → (k : ℕ) × (t : M.State) × (r : Renewed M.State) × (k ≤ 3)
            × (failing k s ≡ some t)
            × Decides k (attempt M t) r
            × (start_renewal M fuel s paths ≡ some r)
      go [] h = absurd (h refl)
      go (path ∷ paths) h =
          let (k, t, r, few, fails, decides, ends) =
            retry_loop_ends fuel 0 s (omega arith) (omega (arith, enough)) in
          let same : 0 + k ≡ k = omega arith in
          (k, t, r, rw same at few, fails, rw same at decides, unfold start_renewal in ends)
