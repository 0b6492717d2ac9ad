-- ===== src/Fuse.antt =====
-- The class `FUSE` of src/client/fuse.cpp: how it finds a node to connect to, and how it calls the
-- client. The client, with all it reaches, is a parameter.
pub mod Connect
pub mod Calls
pub mod Refusals
pub mod Reading
use spkdfs.Prelude.{
  ℕ, Bool, true, false, Option, none, some, List, [], ◌∷◌, ◌++◌, length, ◌==◌, if◌then◌else◌,
}
use spkdfs.Exn.{
  Text, Result, ok, throw, abort, Exception, ErrorMessage, message_exception, runtime_error,
}
use spkdfs.Text.{codes}
use spkdfs.Inode.{Inode}
use spkdfs.Node.{Node, to_string, node_discovery}
use spkdfs.RaftDn.{is_online}

-- What `FUSE` uses of `SDK`: `new SDK(…)`, `delete sdk` and the operations. The state holds the
-- client, its files and the cluster; `answers` says which nodes answer a probe.
pub record Client : Type 1 where
  pub State : Type 0
  pub answers : State → Node → Bool
  pub connect : State → Text → State × Result (Unit {0})
  pub delete : State → State
  pub open_path : State → Text → ℕ → State × Result (Unit {0})
  pub mkdir : State → Text → State × Result (Unit {0})
  pub rm : State → Text → State × Result (Unit {0})
  pub truncate : State → Text → ℕ → State × Result (Unit {0})
  pub ls : State → Text → State × Result Inode
  pub read_data : State → Text → ℕ → ℕ → State × Result Text
  pub create : State → Text → State × Result (Unit {0})
  pub write_data : State → Text → ℕ → Text → State × Result (Unit {0})
  pub close : State → Text → State × Result (Unit {0})
  pub fsync : State → Text → State × Result (Unit {0})

-- The members of `FUSE`; the flag says whether `sdk` is set.
pub record Mount (S : Type 0) : Type 0 where
  pub nodes : List Node
  pub sdk : Bool
  pub state : S

unfoldable pub first_online : List Node → Option Node
first_online [] = none
first_online (node ∷ nodes) =
    let rest = first_online nodes in if is_online node then some node else rest

or_else : Option Node → Option Node → Option Node
or_else (some node) rest = some node
or_else none rest = rest

-- The loop of `init` over the nodes that are left, with those of the group `sub`: the node it
-- connects to, if any.
unfoldable pub choose_node : (Node → Bool) → List Node → List Node → Option Node
unfolding first_online or_else
choose_node answers [] sub = first_online (node_discovery answers sub)
choose_node answers (node ∷ nodes) sub =
    let next = choose_node answers nodes (node ∷ []) in
    let more = choose_node answers nodes (sub ++ node ∷ []) in
    if length sub == 3 then or_else (first_online (node_discovery answers sub)) next else more

-- What a refusal of the first attempt comes to in `open`, `mkdir`, `rm` and `truncate`: it is
-- printed.
abbrev pub swallow : ErrorMessage → Result (Unit {0})
swallow e = ok tt

-- In the other functions it is thrown again.
abbrev pub rethrow : {A : Type 0} → ErrorMessage → Result A
rethrow e = throw (message_exception e)

module _ (C : Client) where
  when_set : {A : Type 0} → Mount C.State → C.State × Result A → Bool → Mount C.State × Result A
  when_set m (s, r) true = (record m { state = s }, r)
  when_set m (s, r) false = (m, abort)

  -- A call of the client, which is undefined where `sdk` is null.
  unfoldable pub called :
      {A : Type 0} → (C.State → C.State × Result A) → Mount C.State → Mount C.State × Result A
  unfolding when_set
  called call m = when_set m (call m.state) m.sdk

  connected : Mount C.State → C.State × Result (Unit {0}) → Mount C.State × Result (Unit {0})
  connected m (s, ok done) = (record m { sdk = true; state = s }, ok done)
  connected m (s, throw e) = (record m { state = s }, throw e)
  connected m (s, abort) = (record m { state = s }, abort)

  init_node : Mount C.State → Option Node → Mount C.State × Result (Unit {0})
  unfolding connected
  init_node m none = (m, throw (runtime_error (codes "all nodes offline")))
  init_node m (some node) = connected m (C.connect m.state (to_string node))

  unfoldable pub init : Mount C.State → Mount C.State × Result (Unit {0})
  unfolding init_node choose_node
  init m = init_node m (choose_node (C.answers m.state) m.nodes [])

  unfoldable pub deinit : Mount C.State → Mount C.State
  deinit m = if m.sdk then record m { sdk = false; state = C.delete m.state } else m

  unfoldable pub reinit : Mount C.State → Mount C.State × Result (Unit {0})
  unfolding init deinit
  reinit m = init (deinit m)

  after_reinit :
      {A : Type 0}
      → (C.State → C.State × Result A)
      → Mount C.State × Result (Unit {0})
      → Mount C.State × Result A
  unfolding called
  after_reinit call (m, ok done) = called call m
  after_reinit call (m, throw e) = (m, throw e)
  after_reinit call (m, abort) = (m, abort)

  -- The `catch` clauses behind the first attempt.
  or_again :
      {A : Type 0}
      → (C.State → C.State × Result A)
      → (ErrorMessage → Result A)
      → Mount C.State × Result A
      → Mount C.State × Result A
  unfolding after_reinit reinit
  or_again call refused (m, ok a) = (m, ok a)
  or_again call refused (m, throw (message_exception e)) = (m, refused e)
  or_again call refused (m, throw (runtime_error what)) = after_reinit call (reinit m)
  or_again call refused (m, abort) = (m, abort)

  unfoldable pub attempt :
      {A : Type 0}
      → (C.State → C.State × Result A)
      → (ErrorMessage → Result A)
      → Mount C.State
      → Mount C.State × Result A
  unfolding or_again called
  attempt call refused m = or_again call refused (called call m)

  unfoldable pub open_path : Text → ℕ → Mount C.State → Mount C.State × Result (Unit {0})
  unfolding attempt
  open_path dst flags m = attempt (λ s. C.open_path s dst flags) swallow m

  unfoldable pub mkdir : Text → Mount C.State → Mount C.State × Result (Unit {0})
  unfolding attempt
  mkdir dst m = attempt (λ s. C.mkdir s dst) swallow m

  unfoldable pub rm : Text → Mount C.State → Mount C.State × Result (Unit {0})
  unfolding attempt
  rm dst m = attempt (λ s. C.rm s dst) swallow m

  unfoldable pub truncate : Text → ℕ → Mount C.State → Mount C.State × Result (Unit {0})
  unfolding attempt
  truncate dst size m = attempt (λ s. C.truncate s dst size) swallow m

  unfoldable pub ls : Text → Mount C.State → Mount C.State × Result Inode
  unfolding attempt
  ls dst m = attempt (λ s. C.ls s dst) rethrow m

  unfoldable pub read : Text → ℕ → ℕ → Mount C.State → Mount C.State × Result Text
  unfolding attempt
  read dst offset size m = attempt (λ s. C.read_data s dst offset size) rethrow m

  unfoldable pub create : Text → Mount C.State → Mount C.State × Result (Unit {0})
  unfolding attempt
  create dst m = attempt (λ s. C.create s dst) rethrow m

  unfoldable pub write : Text → ℕ → Text → Mount C.State → Mount C.State × Result (Unit {0})
  unfolding attempt
  write dst offset s m = attempt (λ st. C.write_data st dst offset s) rethrow m

  unfoldable pub close : Text → Mount C.State → Mount C.State × Result (Unit {0})
  unfolding attempt
  close dst m = attempt (λ s. C.close s dst) rethrow m

  unfoldable pub fsync : Text → Mount C.State → Mount C.State × Result (Unit {0})
  unfolding attempt
  fsync dst m = attempt (λ s. C.fsync s dst) rethrow m
