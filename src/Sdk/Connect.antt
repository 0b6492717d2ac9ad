-- ===== src/Sdk/Connect.antt =====
-- The constructor of `SDK` in src/client/sdk.cpp as far as the timer, and `get_slave_namenode`: which
-- namenode the client reads from, and which it writes to. What a datanode and a namenode answer, and
-- whether a channel can be set up, are parameters, and so are the two numbers of `rand()`.
pub mod Distinct
use spkdfs.Prelude.{
  ℕ, ◌%◌, Bool, not, Option, none, some, List, [], ◌∷◌, length, get_elem?, keep_if, ◌++◌,
  if◌then◌else◌,
}
use spkdfs.Exn.{Text, Result, ok, throw, abort, runtime_error, throw_if, ◌>>=◌, ◌>>◌, or_end}
use spkdfs.Text.{same_text, codes}

pub record Services : Type 0 where
  -- of a datanode: `get_namenodes`, with `check_response`
  pub get_namenodes : Text → Result (List Text)
  -- of a namenode: `get_master`, with `check_response`
  pub get_master : Text → Result Text
  -- whether `Init` of a channel returns 0
  pub init : Text → Bool

-- The addresses behind `nn_slave_stub_ptr` and `nn_master_stub_ptr`.
pub record Connection : Type 0 where
  pub slave : Text
  pub master : Text

-- `rand() % namenodes.size()` divides by 0 where there is none.
unfoldable pub get_slave_namenode : ℕ → List Text → Result Text
get_slave_namenode rand [] = abort
get_slave_namenode rand (n ∷ namenodes) =
    or_end (get_elem? (n ∷ namenodes) (rand % length (n ∷ namenodes)))

-- `if (channel.Init(…) != 0) throw …`
unfoldable pub init_channel : Services → Text → Text → Result (Unit {0})
init_channel net role node =
    throw_if (not (net.init node)) (runtime_error (role ++ codes " channel init failed"))

-- An empty argument stands for no choice.
unfoldable pub first_slave : ℕ → Text → List Text → Result Text
first_slave rand [] namenodes = get_slave_namenode rand namenodes
first_slave rand (b ∷ namenode) namenodes = ok (b ∷ namenode)

-- A slave that is the master is given up for another one of the list.
unfoldable pub settle_slave : Services → ℕ → List Text → Text → Text → Result Text
settle_slave net rand namenodes slave master =
    if same_text master slave
    then (do
      other ← get_slave_namenode rand (keep_if (λ n. not (same_text n slave)) namenodes)
      init_channel net (codes "namenode_slave") other
      ok other)
    else ok slave

unfoldable pub connect : Services → ℕ → ℕ → Text → Text → Result Connection
connect net rand rand' datanode namenode = do
  namenodes ← net.get_namenodes datanode
  slave ← first_slave rand namenode namenodes
  init_channel net (codes "namenode_slave") slave
  master ← net.get_master slave
  init_channel net (codes "namenode_master") master
  slave' ← settle_slave net rand' namenodes slave master
  ok (record { slave = slave'; master = master })
