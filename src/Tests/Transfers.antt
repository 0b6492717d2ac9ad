-- ===== src/Tests/Transfers.antt =====
-- The theorems on the transfer of blocks and whole files, at concrete values.
use spkdfs.Prelude.{
  All, ◌≡◌, refl, ap, ◌∙◌, ℕ, ◌+◌, true, false, none, some, List, [], ◌∷◌, ◌++◌, map, ◌&&◌, ◌==◌,
  ◌≤◌, ◌<◌, if◌then◌else◌, arith,
}
use spkdfs.Prelude.Int.{pos}
use spkdfs.Exn.{Text, ok, abort}
use spkdfs.Text.{same_text, codes}
use spkdfs.Text.Split.{Lacks}
use spkdfs.Node.{Node, online, to_string, new_node}
use spkdfs.Reply.{Response, succ_response}
use spkdfs.Storage.{StorageType, rs, re}
use spkdfs.Storage.Coding.{encode}
use spkdfs.Fragments.{decode_one_sub}
use spkdfs.Sdk.Transfer.{Datanodes, Called, failed, answered, encode_one, decode_one}
use spkdfs.Sdk.Transfer.Recovery.{IsHash, decode_one-encode_one}
use spkdfs.Sdk.Transfer.{get_from_datanode, upload, fresh, ended, Progress}
use spkdfs.Sdk.Transfer.Recovery.{IsListed}
use spkdfs.Sdk.Transfer.Ends.{upload_all_fail}
use spkdfs.Storage.{check}
use spkdfs.Inode.{Inode}
use spkdfs.Sdk.Transfer.{put_to_datanode, check_call}
use spkdfs.Sdk.Transfer.Gather.{got}
use spkdfs.Text.Decimal
use spkdfs.Text.Split.{tokens, before, after}
use spkdfs.Reply.{check_response}
use spkdfs.Fragments.{encode_one_sub}
use spkdfs.Storage.{get_block_size, mebibytes, as_int}
use spkdfs.Sdk.Fsync.{PutOk}
use spkdfs.Tests.Values.{copies, copies-IsErasureCode}
use spkdfs.Sdk.Whole.{put, get}
use spkdfs.Sdk.Whole.RoundTrip.{Returns, IsKept, get-put_file}
use spkdfs.Storage.{storage_to_string}
use spkdfs.Storage.Format.{storage_from_string-storage_to_string}

abbrev dn_at : ℕ → Node
dn_at c = record { ip = b'1' ∷ b'0' ∷ b'.' ∷ c ∷ []; port = pos 1; node_status = online }

-- What is stored: by node and hash.
abbrev Disk : Type 0
Disk = List (Text × Text × Text)

abbrev found : Disk → Text → Text → Called (Response × Text)
found [] node blkid = failed (codes "gone")
found ((n, h, data') ∷ disk) node blkid =
    let rest = found disk node blkid in
    if same_text n node && same_text h blkid then answered (succ_response, data') else rest

-- The first datanode does not answer. A hash moves the bytes past the separators.
abbrev cluster : Datanodes
cluster = record {
  State = Disk;
  call_put = λ disk node blkid data'.
      if same_text node (to_string (dn_at b'1'))
      then (disk, failed (codes "down"))
      else ((node, blkid, data') ∷ disk, answered succ_response);
  call_get = found;
  sha256sum = map (λ c. c + 125);
}

abbrev pub storage : StorageType
storage = rs (pos 1) (pos 1) (pos 2)

abbrev block : Text
block = b'x' ∷ b'y' ∷ []

abbrev nodes : List Node
nodes = dn_at b'1' ∷ dn_at b'2' ∷ dn_at b'3' ∷ []

abbrev blkid : Text
blkid = map (λ c. c + 125) block

abbrev address : ℕ → Text
address c = b'1' ∷ b'0' ∷ b'.' ∷ c ∷ b':' ∷ b'1' ∷ []

-- The text that the block is found by: the fragments are at the second and the third datanode.
abbrev pub sub_text : Text
sub_text = address b'2' ++ b'|' ∷ blkid ++ b',' ∷ address b'3' ++ b'|' ∷ blkid

abbrev on_third : Disk
on_third = (address b'3', blkid, block) ∷ []

stored_run :
    encode_one cluster copies 10 (ok (map to_string nodes)) [] storage block
    ≡ some ((address b'3', blkid, block) ∷ (address b'2', blkid, block) ∷ [], ok sub_text)
unfolding encode_one encode to_string put_to_datanode check_call same_text Decimal.to_string
    check_response check encode_one_sub new_node after Decimal.stoi before
stored_run = refl

moved-Lacks : (d : ℕ) (t : Text) → d ≤ 124 → Lacks d (map (λ c. c + 125) t)
moved-Lacks d [] h = tt
moved-Lacks d (c ∷ t) h = (ground arith, moved-Lacks d t h)

cons_injective : {c d : ℕ} {t s : Text} → c ∷ t ≡ d ∷ s → (c ≡ d) × (t ≡ s)
cons_injective e = (cc, cc)

moved_injective : (t s : Text) → map (λ c. c + 125) t ≡ map (λ c. c + 125) s → t ≡ s
moved_injective [] [] e = refl
moved_injective [] (d ∷ s) e = absurd (cc)
moved_injective (c ∷ t) [] e = absurd (cc)
moved_injective (c ∷ t) (d ∷ s) e =
    let (head, tail) = cons_injective e in
    let same : c ≡ d = omega arith in
    ap (λ x. x ∷ t) same ∙ ap (λ l. d ∷ l) (moved_injective t s tail)

cluster-IsHash : IsHash cluster.sha256sum (block ∷ block ∷ [])
cluster-IsHash = record {
  no_bar = λ t. moved-Lacks b'|' t (omega arith);
  no_comma = λ t. moved-Lacks b',' t (omega arith);
  no_collision = (λ t. moved_injective t block, (λ t. moved_injective t block, tt));
}

dn_at-IsListed :
    (c : ℕ) → (c == b':') ≡ false → (c == b',') ≡ false → (c == b'|') ≡ false → IsListed (dn_at c)
dn_at-IsListed c colon comma bar = (
  record {
    no_colon = (refl, (refl, (refl, (colon, tt))));
    no_comma = (refl, (refl, (refl, (comma, tt))));
    port_IsInt = omega arith;
  },
  (refl, (refl, (refl, (bar, tt)))),
)

-- The first datanode never answers, and the second one has since lost its fragment.
decode_one-encode_one_example : decode_one cluster copies on_third storage sub_text ≡ ok block
unfolding encode decode_one_sub get_from_datanode got tokens same_text before after check_response
decode_one-encode_one_example =
    decode_one-encode_one copies cluster 10 nodes []
      ((address b'3', blkid, block) ∷ (address b'2', blkid, block) ∷ []) on_third storage block
      sub_text (block ∷ block ∷ []) (omega arith, copies-IsErasureCode)
      (
        dn_at-IsListed b'1' refl refl refl,
        (dn_at-IsListed b'2' refl refl refl, (dn_at-IsListed b'3' refl refl refl, tt)),
      )
      refl cluster-IsHash stored_run (omega arith)

-- No datanode answers.
abbrev silent : Datanodes
silent = record {
  State = Unit;
  call_put = λ s node blkid data'. (s, failed (codes "down"));
  call_get = λ s node blkid. failed (codes "down");
  sha256sum = λ t. t;
}

upload_all_fail_example :
    (check storage (pos 0) ≡ false
      → (s' : Unit {0}) × (upload silent 2 storage
            (address b'1' ∷ address b'2' ∷ [])
            tt
            (block ∷ [])
            (fresh silent)
          ≡ some (ended s' [])))
    × ((fuel : ℕ) (p : Progress)
        → check storage (pos p.succ) ≡ true
        → p.node_index < 2
        → upload silent fuel storage (address b'1' ∷ address b'2' ∷ []) tt (block ∷ []) p ≡ none)
upload_all_fail_example =
    upload_all_fail silent (λ s node blkid fragment. (codes "down", refl)) storage
      (address b'1' ∷ address b'2' ∷ []) tt block [] (omega arith)

any-IsHash : (all : List Text) → IsHash cluster.sha256sum all
any-IsHash all = record {
  no_bar = λ t. moved-Lacks b'|' t (omega arith);
  no_comma = λ t. moved-Lacks b',' t (omega arith);
  no_collision = apart all;
}
  where
    apart :
        (fs : List Text)
        → All (λ f. (t : Text) → cluster.sha256sum t ≡ cluster.sha256sum f → t ≡ f) fs
    apart [] = tt
    apart (f ∷ fs) = (λ t. moved_injective t f, apart fs)

-- Every upload to the cluster ends: the first datanode fails, and the others do not.
uploads_return : Returns cluster copies (λ s. nodes) 10 storage
unfolding encode_one encode to_string put_to_datanode check_call same_text Decimal.to_string
    check_response check encode_one_sub new_node after Decimal.stoi before
uploads_return s b = (_, _, refl)

nodes-IsListed : All IsListed nodes
nodes-IsListed = (
  dn_at-IsListed b'1' refl refl refl,
  (dn_at-IsListed b'2' refl refl refl, (dn_at-IsListed b'3' refl refl refl, tt)),
)

-- What the namenode answers.
abbrev accepted : Called Response
accepted = answered succ_response

is_accepted : check_call accepted ≡ ok tt
unfolding check_call check_response
is_accepted = refl

abbrev small_file : Text
small_file = b'h' ∷ b'i' ∷ []

-- A storage type that `storage_from_string` accepts, and whose block size no `int` holds.
too_large : get_block_size (re (pos 3) (pos 2048)) ≡ abort
unfolding get_block_size mebibytes as_int
too_large = refl

get-put_file_example :
    (s' : Disk) × (request : PutOk) × (put cluster copies
        (λ s. nodes)
        10
        2
        (storage_to_string storage)
        (some small_file)
        accepted
        accepted
        (λ r. accepted)
        []
      ≡ some (s', ok request))
    × ((later : Disk) (inode : Inode)
        → inode.storage_type_ptr ≡ some storage
        → inode.sub ≡ request.sub
        → inode.filesize ≡ request.filesize
        → IsKept cluster copies (λ s. nodes) 10 storage later request.sub
        → get cluster copies later (ok inode) true ≡ ok small_file)
unfolding get_block_size mebibytes as_int
get-put_file_example =
    get-put_file cluster copies (λ s. nodes) 10 storage (omega arith, copies-IsErasureCode)
      (λ s. nodes-IsListed) (λ b all e. any-IsHash all) uploads_return 2097152 2
      (storage_to_string storage) small_file accepted accepted (λ r. accepted) []
      (storage_from_string-storage_to_string storage (omega arith, omega arith, omega arith)) refl
      (omega arith) (omega arith) is_accepted is_accepted (λ r. is_accepted)
