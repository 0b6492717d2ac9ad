-- ===== src/Sdk/Transfer.antt =====
-- How the client of src/client/sdk.cpp moves one block to the datanodes and back. A call of a
-- datanode is a parameter, and so is SHA-256.
pub mod Upload
pub mod Gather
pub mod Recovery
pub mod Ends
use spkdfs.Prelude.{
  ℕ, zero, suc, ◌+◌, ◌%◌, Bool, true, false, not, ◌&&◌, Option, none, some, List, [], ◌∷◌, ◌++◌,
  map, keep_if, length, get_elem?, leb, ◌==◌, if◌then◌else◌,
}
use spkdfs.Prelude.Int.{ℤ, pos, negsuc}
use spkdfs.Exn.{Text, Result, ok, throw, abort, runtime_error, ◌>>=◌, ◌>>◌}
use spkdfs.Text.{same_text, codes}
use spkdfs.Node.{Node, default_node, from_string, to_string, node_discovery}
use spkdfs.RaftDn.{is_online}
use spkdfs.Reply.{Response, check_response}
use spkdfs.Storage.{StorageType, get_decode_blocks, check}
use spkdfs.Storage.Coding.{ErasureCode, encode, decode}
use spkdfs.Fragments.{encode_one_sub, decode_one_sub}

-- A call over brpc fails with a text, or it is answered.
pub data Called (A : Type 0) : Type 0 where
  failed : Text → Called A
  answered : A → Called A

-- What the client calls: datanodes by their text, and `cal_sha256sum`.
pub record Datanodes : Type 1 where
  pub State : Type 0
  pub call_put : State → Text → Text → Text → State × Called Response
  pub call_get : State → Text → Text → Called (Response × Text)
  pub sha256sum : Text → Text

unfoldable pub check_call : Called Response → Result (Unit {0})
check_call (failed what) = throw (runtime_error (codes "brpc not success: " ++ what))
check_call (answered response) = check_response response

unfoldable pub checked_data : Called (Response × Text) → Result Text
checked_data (failed what) = throw (runtime_error (codes "brpc not success: " ++ what))
checked_data (answered (response, data')) = check_response response >> ok data'

-- The datanodes of a reply, as texts of nodes.
parse_each : List Text → Result (List Node)
parse_each [] = ok []
parse_each (s ∷ ss) = do node ← from_string s default_node; nodes ← parse_each ss; ok (node ∷ nodes)

unfoldable pub get_online_datanodes : (Node → Bool) → Result (List Text) → Result (List Text)
unfolding parse_each
get_online_datanodes answers listed = do
  texts ← listed
  vec ← parse_each texts
  ok (map to_string (keep_if is_online (node_discovery answers vec)))

-- The counters of the loop of `encode_one`, and what it has stored.
pub record Progress : Type 0 where
  pub node_index : ℕ
  pub succ : ℕ
  pub fail_count : ℕ
  pub nodes_hashs : List (Text × Text)

-- How the loop ends: with what was stored, or undefined where `nodes[node_index]` does not exist.
pub data Ended (S : Type 0) : Type 0 where
  ended : S → List (Text × Text) → Ended S
  undefined : Ended S

module _ (D : Datanodes) where
  unfoldable pub put_to_datanode : D.State → Text → Text → D.State × Result Text
  put_to_datanode s datanode block =
      let (s', called) = D.call_put s datanode (D.sha256sum block) block in
      (s', check_call called >> ok (D.sha256sum block))

  verified : Text → Text → Bool → Result Text
  verified data' blkid true = ok data'
  verified data' blkid false = throw (runtime_error (codes "sha256sum check fail"))

  unfoldable pub get_from_datanode : D.State → Text → Text → Result Text
  unfolding checked_data verified
  get_from_datanode s datanode blkid = do
    data' ← checked_data (D.call_get s datanode blkid)
    verified data' blkid (same_text (D.sha256sum data') blkid)

  -- The body's `try` and `catch`: a fragment is stored, or stays (`i--`).
  after_put : Text → List Text → Text → Progress → Result Text → List Text × Progress
  after_put fragment left node p (ok blkid) =
      (left, record p { succ = p.succ + 1; nodes_hashs = p.nodes_hashs ++ (node, blkid) ∷ [] })
  after_put fragment left node p (throw e) =
      (fragment ∷ left, record p { fail_count = p.fail_count + 1 })
  after_put fragment left node p abort =
      (fragment ∷ left, record p { fail_count = p.fail_count + 1 })

  -- What stands behind the body's `catch`: how the loop goes on, or none where it breaks.
  unfoldable pub next_round : StorageType → ℕ → Progress → Option Progress
  next_round storage size p =
      let next : Progress = record p { node_index = (p.node_index + 1) % size } in
      if next.node_index == 0 && not (check storage (pos p.succ))
      then if p.fail_count == size then none else some (record next { fail_count = 0 })
      else some next

  or_undefined : Option Text → (Text → Option (Ended D.State)) → Option (Ended D.State)
  or_undefined none k = some undefined
  or_undefined (some node) k = k node

  or_ended :
      D.State
      → Progress
      → Option Progress
      → (Progress → Option (Ended D.State))
      → Option (Ended D.State)
  or_ended s p none k = some (ended s p.nodes_hashs)
  or_ended s p (some next) k = k next

  -- The loop over the fragments from `i` on, with fuel for its rounds: none where that is used up.
  unfoldable pub upload :
      ℕ → StorageType → List Text → D.State → List Text → Progress → Option (Ended D.State)
  unfolding after_put next_round or_undefined or_ended
  upload fuel storage nodes s [] p = some (ended s p.nodes_hashs)
  upload zero storage nodes s (fragment ∷ left) p = none
  upload (suc fuel) storage nodes s (fragment ∷ left) p =
      or_undefined (get_elem? nodes p.node_index) λ node.
        let (s', r) = put_to_datanode s node fragment in
        let (left', p') = after_put fragment left node p r in
        or_ended s' p' (next_round storage (length nodes) p') (upload fuel storage nodes s' left')

  abbrev pub fresh : Progress
  fresh = record { node_index = 0; succ = 0; fail_count = 0; nodes_hashs = [] }

  text_of : Ended D.State → D.State → D.State × Result Text
  text_of (ended s nodes_hashs) old = (s, encode_one_sub nodes_hashs)
  text_of undefined old = (old, abort)

  -- `encode_one`, for the fragments and the online datanodes; none where the fuel is used up.
  unfoldable pub send_all : D.State → Option (Ended D.State) → Option (D.State × Result Text)
  unfolding text_of
  send_all s none = none
  send_all s (some e) = some (text_of e s)

  unfoldable pub with_fragments :
      ℕ
      → StorageType
      → D.State
      → Result (List Text)
      → Result (List Text)
      → Option (D.State × Result Text)
  unfolding send_all upload
  with_fragments fuel storage s (ok vec) (ok nodes) =
      send_all s (upload fuel storage nodes s vec fresh)
  with_fragments fuel storage s (ok vec) (throw e) = some (s, throw e)
  with_fragments fuel storage s (ok vec) abort = some (s, abort)
  with_fragments fuel storage s (throw e) nodes = some (s, throw e)
  with_fragments fuel storage s abort nodes = some (s, abort)

  -- `nodes` is what `get_online_datanodes` comes to, which the source calls after `encode`.
  unfoldable pub encode_one :
      ErasureCode
      → ℕ
      → Result (List Text)
      → D.State
      → StorageType
      → Text
      → Option (D.State × Result Text)
  unfolding with_fragments
  encode_one code fuel nodes s storage block =
      with_fragments fuel storage s (encode code storage block) nodes

  -- A `decode` that throws is caught, and the loop goes on.
  after_decode : Result Text → Result Text → Result Text
  after_decode (ok block) rest = ok block
  after_decode (throw e) rest = rest
  after_decode abort rest = abort

  -- `datas[succ++] = …`, past the end of `datas` undefined.
  after_get :
      ErasureCode
      → StorageType
      → ℕ
      → List Text
      → Result Text
      → (List Text → Result Text)
      → Result Text
  unfolding after_decode
  after_get code storage k datas (throw e) rest = rest datas
  after_get code storage k datas abort rest = abort
  after_get code storage k datas (ok data') rest =
      let datas' = datas ++ data' ∷ [] in
      let more = rest datas' in
      if leb k (length datas)
      then abort
      else if length datas' == k
      then after_decode (decode code storage datas') more
      else more

  -- The loop of `decode_one`: too few fragments make an empty text.
  unfoldable pub collect :
      ErasureCode → StorageType → ℕ → D.State → List (Text × Text) → List Text → Result Text
  unfolding after_get
  collect code storage k s [] datas = ok []
  collect code storage k s ((node, blkid) ∷ res) datas =
      after_get code storage k datas (get_from_datanode s node blkid) (collect code storage k s res)

  -- `datas.resize(…)` throws for a negative number.
  sized : ErasureCode → StorageType → D.State → List (Text × Text) → ℤ → Result Text
  sized code storage s res (pos k) = collect code storage k s res []
  sized code storage s res (negsuc k) = throw (runtime_error (codes "vector::_M_default_append"))

  unfoldable pub decode_one : ErasureCode → D.State → StorageType → Text → Result Text
  unfolding sized collect
  decode_one code s storage one_sub =
      sized code storage s (decode_one_sub one_sub) (get_decode_blocks storage)
