-- ===== src/Tests/Memory.antt =====
-- A store in memory: an association list, whose first entry for a key counts.
use spkdfs.Prelude.{
  ◌≡◌, refl, ◌∙◌, subst, Option, some, some_injective, List, [], ◌∷◌, ◌≢◌, Bool-cases, inl, inr,
  if◌then◌else◌,
}
use spkdfs.Exn.{Text}
use spkdfs.Text.{same_text}
use spkdfs.KvStore.{
  KvStore, IsKvStore, IsReliable, Lookup, found, not_found, get_failed, written, overlay,
}

unfoldable pub memory_get : List (Text × Text) → Text → Lookup
memory_get [] key = not_found
memory_get ((k, v) ∷ s) key = if same_text k key then found v else memory_get s key

unfoldable pub memory_write : List (Text × Text) → List (Text × Text) → List (Text × Text)
memory_write s [] = s
memory_write s (kv ∷ batch) = memory_write (kv ∷ s) batch

abbrev pub memory : KvStore
memory = record {
  State = List (Text × Text);
  get = memory_get;
  put = λ s k v. written ((k, v) ∷ s);
  write = λ s batch. written (memory_write s batch);
  open_db = some;
  Backups = Option (List (Text × Text));
  create_backup = λ b s. some (some s);
  restore_latest = λ b. b;
}

get-memory_write :
    (s batch : List (Text × Text)) (key : Text)
    → memory_get (memory_write s batch) key ≡ overlay batch key (memory_get s key)
unfolding memory_get memory_write
get-memory_write s [] key = refl
get-memory_write s ((k, v) ∷ batch) key = get-memory_write ((k, v) ∷ s) batch key

written_injective : {s t : List (Text × Text)} → written s ≡ written t → s ≡ t
written_injective p = cc

pub memory-IsKvStore : IsKvStore memory
memory-IsKvStore = record {
  get-put = λ s t k v key e.
      subst
        (λ (u : List (Text × Text)).
          memory_get u key ≡ (if same_text k key then found v else memory_get s key))
        (written_injective e) (unfold memory_get in refl);
  get-write = λ s t batch key e.
      subst (λ (u : List (Text × Text)). memory_get u key ≡ overlay batch key (memory_get s key))
        (written_injective e) (get-memory_write s batch key);
  get-open_db = λ s t key e.
      subst (λ (u : List (Text × Text)). memory_get u key ≡ memory_get s key) (some_injective e)
        refl;
  restore-create = λ b b' s t key e r.
      subst (λ (u : List (Text × Text)). memory_get u key ≡ memory_get s key)
        (some_injective (some_injective e ∙ r)) refl;
}

memory_get_answers :
    (s : List (Text × Text)) (key status : Text) → memory_get s key ≢ get_failed status
unfolding memory_get
memory_get_answers [] key status e = cc
memory_get_answers ((k, v) ∷ s) key status e = elim (Bool-cases (same_text k key)) [
  | inl q ↦ absurd (cc (rw q at e))
  | inr q ↦ memory_get_answers s key status (rw q at e)
]

pub memory-IsReliable : IsReliable memory
memory-IsReliable = record {
  get_answers = memory_get_answers;
  put_writes = λ s k v. ((k, v) ∷ s, refl);
  write_writes = λ s batch. (memory_write s batch, refl);
}
