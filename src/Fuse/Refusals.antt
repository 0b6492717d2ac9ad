-- ===== src/Fuse/Refusals.antt =====
-- Which failures of the client the callbacks report, and which they hide.
use spkdfs.Prelude.{◌≡◌, refl, ap, ℕ, ◌≤◌, Bool, true, false, length}
use spkdfs.Prelude.Int.{pos, int_max}
use spkdfs.Exn.{Text, Result, ok, throw, abort, message_exception, runtime_error}
use spkdfs.Sdk.Indexes.Covers.{to_int-small}
use spkdfs.Fuse.{
  Client, Mount, called, when_set, attempt, or_again, after_reinit, rethrow, reinit, write, create,
  close, fsync,
}
use spkdfs.Fuse.Calls.{
  Returned, returned, or_errno, spkdfs_write, spkdfs_create, spkdfs_close, spkdfs_fsync,
}

module _ (C : Client) where
  -- In some state the client did what it was called for, and the mount is as that left it.
  abbrev pub Succeeded : {A : Type 0} → (C.State → C.State × Result A) → Mount C.State → A → Type 0
  Succeeded call m a = (s : C.State) × (call s ≡ (m.state, ok a))

  when_set-eq-ok :
      {A : Type 0} (m : Mount C.State) (p : C.State × Result A) (set : Bool) (m' : Mount C.State)
      (a : A)
      → when_set C m p set ≡ (m', ok a)
      → p ≡ (m'.state, ok a)
  unfolding when_set
  when_set-eq-ok m (s, r) true m' a e = ap (λ x. ((x.0).state, x.1)) e
  when_set-eq-ok m (s, r) false m' a e = absurd (cc)

  called-eq-ok :
      {A : Type 0} (call : C.State → C.State × Result A) (m m' : Mount C.State) (a : A)
      → called C call m ≡ (m', ok a)
      → Succeeded call m' a
  unfolding called
  called-eq-ok call m m' a e = (m.state, when_set-eq-ok m (call m.state) m.sdk m' a e)

  after_reinit-eq-ok :
      {A : Type 0} (call : C.State → C.State × Result A) (m1 : Mount C.State)
      (r : Result (Unit {0})) (m' : Mount C.State) (a : A)
      → after_reinit C call (m1, r) ≡ (m', ok a)
      → Succeeded call m' a
  unfolding after_reinit
  after_reinit-eq-ok call m1 (ok done) m' a e = called-eq-ok call m1 m' a e
  after_reinit-eq-ok call m1 (throw x) m' a e = absurd (cc)
  after_reinit-eq-ok call m1 abort m' a e = absurd (cc)

  or_again-eq-ok :
      {A : Type 0} (call : C.State → C.State × Result A) (m1 : Mount C.State) (r : Result A)
      (m' : Mount C.State) (a : A)
      → (◌≡◌ {A = Mount C.State × Result A} (m1, r) (m', ok a) → Succeeded call m' a)
      → or_again C call rethrow (m1, r) ≡ (m', ok a)
      → Succeeded call m' a
  unfolding or_again
  or_again-eq-ok call m1 (ok b) m' a first e = first e
  or_again-eq-ok call m1 (throw (message_exception x)) m' a first e = absurd (cc)
  or_again-eq-ok call m1 (throw (runtime_error what)) m' a first e =
      after_reinit-eq-ok call (reinit C m1).0 (reinit C m1).1 m' a e
  or_again-eq-ok call m1 abort m' a first e = absurd (cc)

  attempt-eq-ok :
      {A : Type 0} (call : C.State → C.State × Result A) (m m' : Mount C.State) (a : A)
      → attempt C call rethrow m ≡ (m', ok a)
      → Succeeded call m' a
  unfolding attempt
  attempt-eq-ok call m m' a e =
      or_again-eq-ok call (called C call m).0 (called C call m).1 m' a (called-eq-ok call m m' a) e

  or_errno-eq-returned :
      (error v : ℕ) (r : Result (Unit {0})) (value : ℕ)
      → or_errno error (pos value) r ≡ returned (pos v) tt
      → r ≡ ok tt
  unfolding or_errno
  or_errno-eq-returned error v (ok tt) value e = refl
  or_errno-eq-returned error v (throw x) value e = absurd (cc)
  or_errno-eq-returned error v abort value e = absurd (cc)

  callback_ok :
      (call : C.State → C.State × Result (Unit {0})) (m m' : Mount C.State) (error v value : ℕ)
      → ◌≡◌ {A = Mount C.State × Returned (Unit {0})}
          ((attempt C call rethrow m).0, or_errno error (pos value) (attempt C call rethrow m).1)
          (m', returned (pos v) tt)
      → Succeeded call m' tt
  callback_ok call m m' error v value e =
      let r = or_errno-eq-returned error v (attempt C call rethrow m).1 value (ap (λ x. x.1) e) in
      let did : attempt C call rethrow m ≡ (m', ok tt) = λ i. ((ap (λ x. x.0) e) i, r i) in
      attempt-eq-ok call m m' tt did

  -- A write, create, close or fsync that returns no error did happen: the client did it, at the first
  -- attempt or after the mount has connected again, and the mount is as that left it.
  pub callbacks-report :
      (m m' : Mount C.State) (path : Text) (v : ℕ)
      → ((s : Text) (offset : ℕ)
          → length s ≤ int_max
          → spkdfs_write C path s offset m ≡ (m', returned (pos v) tt)
          → Succeeded (λ st. C.write_data st path offset s) m' tt)
        × (spkdfs_create C path m ≡ (m', returned (pos v) tt)
            → Succeeded (λ st. C.create st path) m' tt)
        × (spkdfs_close C path m ≡ (m', returned (pos v) tt)
            → Succeeded (λ st. C.close st path) m' tt)
        × (spkdfs_fsync C path m ≡ (m', returned (pos v) tt)
            → Succeeded (λ st. C.fsync st path) m' tt)
  unfolding spkdfs_write spkdfs_create spkdfs_close spkdfs_fsync write create close fsync
  callbacks-report m m' path v = (
    λ s offset small e.
        callback_ok (λ st. C.write_data st path offset s) m m' 5 v (length s)
          (rw (to_int-small (length s) small) at e),
    λ e. callback_ok (λ st. C.create st path) m m' 5 v 0 e,
    λ e. callback_ok (λ st. C.close st path) m m' 5 v 0 e,
    λ e. callback_ok (λ st. C.fsync st path) m m' 5 v 0 e,
  )
