-- ===== src/Tests/Values.antt =====
-- Round trips and normal forms, at concrete values.
use spkdfs.Prelude.{
  ◌≡◌, refl, ap, subst, sym, ◌∙◌, true, false, Option, none, some, List, [], ◌∷◌, ◌++◌, map, length,
  All, arith, ◌⊎◌,
}
use spkdfs.Prelude.Int.{pos, negsuc}
use spkdfs.Exn.{Text, ok}
use spkdfs.Text.Decimal.{stoi, to_string}
use spkdfs.Text.Decimal.RoundTrip.{stoi-to_string}
use spkdfs.FsPath.{simplify_path, slash}
use spkdfs.FsPath.Parent.{IsChild, simplify_path_parent}
use spkdfs.Node.{Node, online, parse_nodes, list_to_string}
use spkdfs.Node.RoundTrip.{address, parse_nodes-list_to_string}
use spkdfs.Storage.{StorageType, rs, storage_from_string, storage_to_string}
use spkdfs.Storage.Format.{storage_from_string-storage_to_string}
use spkdfs.Storage.Coding.{
  ErasureCode, IsErasureCode, IsSelection, empty, lost, kept, fragments, encode, decode,
  decode-encode_rs,
}
use spkdfs.Fragments.{encode_one_sub, decode_one_sub}
use spkdfs.Fragments.RoundTrip.{Placed, entry, decode_one_sub-encode_one_sub}
use spkdfs.Inode.{Inode, inode_value, parse_inode}
use spkdfs.Inode.RoundTrip.{IsStorable, parse_inode-inode_value}
use spkdfs.Inode.{
  key_fullpath, key_is_directory, key_filesize, key_sub, key_valid, key_ddl_lock, key_storage_type,
}
use spkdfs.Json.{or_json_error}
use spkdfs.Text.{codes, same_text}
use spkdfs.Text.Split.{tokens}
use spkdfs.Storage.JsonForm.{storage_to_json, key_type, key_k, key_m, key_b, rs_type}
use spkdfs.Tests.JsonText.{json_text, json_text-IsJson, chunk, object_text, array_text}

stoi-to_string_example : stoi (to_string (negsuc 41)) ≡ ok (negsuc 41)
stoi-to_string_example = stoi-to_string (negsuc 41) (omega arith)

abbrev dotted_path : Text
dotted_path =
    b'/' ∷ b'a' ∷ b'/' ∷ b'/' ∷ b'b' ∷ b'/' ∷ b'.' ∷ b'.' ∷ b'/' ∷ b'.' ∷ b'/' ∷ b'c' ∷ b'/' ∷ []

simplify_path_parent_example :
    (simplify_path dotted_path ≡ slash) ⊎ IsChild (simplify_path dotted_path)
simplify_path_parent_example = simplify_path_parent dotted_path refl

abbrev node_a : Node
node_a = record { ip = b'1' ∷ b'0' ∷ b'.' ∷ b'1' ∷ []; port = pos 8001; node_status = online }

abbrev node_b : Node
node_b = record { ip = b'1' ∷ b'0' ∷ b'.' ∷ b'2' ∷ []; port = pos 8002; node_status = online }

parse_nodes-list_to_string_example :
    parse_nodes (list_to_string (node_a ∷ node_b ∷ [])) ≡ ok (map address (node_a ∷ node_b ∷ []))
parse_nodes-list_to_string_example = parse_nodes-list_to_string node_a (node_b ∷ []) (
  record {
    no_colon = (refl, (refl, (refl, (refl, tt))));
    no_comma = (refl, (refl, (refl, (refl, tt))));
    port_IsInt = omega arith;
  },
  (
    record {
      no_colon = (refl, (refl, (refl, (refl, tt))));
      no_comma = (refl, (refl, (refl, (refl, tt))));
      port_IsInt = omega arith;
    },
    tt,
  ),
)

abbrev rs_three_two : StorageType
rs_three_two = rs (pos 3) (pos 2) (pos 64)

storage_from_string-storage_to_string_example :
    storage_from_string (storage_to_string rs_three_two) ≡ ok rs_three_two
storage_from_string-storage_to_string_example =
    storage_from_string-storage_to_string rs_three_two (omega arith, omega arith, omega arith)

abbrev placed_a : Placed
placed_a = record { node = node_a; blkid = b'f' ∷ b'0' ∷ [] }

decode_one_sub-encode_one_sub_example :
    (text : Text) × (encode_one_sub (map entry (placed_a ∷ [])) ≡ ok text)
    × (decode_one_sub text ≡ map entry (placed_a ∷ []))
decode_one_sub-encode_one_sub_example = decode_one_sub-encode_one_sub placed_a [] (
  record {
    plain = record {
      no_colon = (refl, (refl, (refl, (refl, tt))));
      no_comma = (refl, (refl, (refl, (refl, tt))));
      port_IsInt = omega arith;
    };
    no_bar = (refl, (refl, (refl, (refl, tt))));
    id_no_bar = (refl, (refl, tt));
    id_no_comma = (refl, (refl, tt));
  },
  tt,
)

abbrev file_inode : Inode
file_inode = record {
  fullpath = b'/' ∷ b'f' ∷ [];
  is_directory = false;
  filesize = 70;
  storage_type_ptr = some rs_three_two;
  sub = (b'x' ∷ []) ∷ [];
  valid = true;
  ddl_lock = 1060;
}

abbrev file_text : Text
file_text = elim (inode_value json_text file_inode) [ ok t ↦ t | _ ↦ [] ]

-- One data fragment and one parity fragment, each a copy of the block.
abbrev first_of : List Text → Option Text
first_of [] = none
first_of (x ∷ xs) = some x

abbrev pub copies : ErasureCode
copies = record {
  erasure_encode = λ k m block. fragments (block ∷ []) (block ∷ []);
  erasure_decode = λ k m vec. first_of vec;
}

fragments_injective :
    {ds ps ds' ps' : List Text} → fragments ds ps ≡ fragments ds' ps' → (ds ≡ ds') × (ps ≡ ps')
fragments_injective e = (cc, cc)

first_of_copies :
    (block : Text) {xs ys : List Text}
    → IsSelection xs ys
    → All (λ y. y ≡ block) ys
    → length xs ≡ 1
    → first_of xs ≡ some block
first_of_copies block empty h n = absurd (omega arith)
first_of_copies block (lost y s) h n = first_of_copies block s h.1 n
first_of_copies block (kept y s) h n = ap some h.0

pub copies-IsErasureCode : IsErasureCode copies 1 1
copies-IsErasureCode = record {
  data_count = λ block ds ps e. ap length (sym (fragments_injective e).0);
  parity_count = λ block ds ps e. ap length (sym (fragments_injective e).1);
  decodes = λ block ds ps left e s n.
      first_of_copies block s
        (subst (λ l. All (λ y. y ≡ block) l)
          (ap (λ l. l ++ block ∷ []) (fragments_injective e).0
            ∙ ap (λ l. ds ++ l) (fragments_injective e).1)
          (refl, (refl, tt)))
        n;
}

abbrev block : Text
block = b'x' ∷ b'y' ∷ []

-- The data fragment is lost.
decode-encode_rs_example : decode copies (rs (pos 1) (pos 1) (pos 64)) (block ∷ []) ≡ ok block
unfolding encode
decode-encode_rs_example =
    decode-encode_rs copies 1 1 (pos 64) copies-IsErasureCode block (block ∷ block ∷ [])
      (block ∷ []) refl (omega arith) (lost block (kept block empty)) (omega arith)

file_runs : inode_value json_text file_inode ≡ ok file_text
unfolding inode_value or_json_error storage_to_json key_fullpath key_is_directory key_filesize
    key_sub key_valid key_ddl_lock key_storage_type key_type key_k key_m key_b rs_type chunk
    object_text array_text codes
file_runs = refl

file_inode-IsStorable : IsStorable file_inode
unfolding simplify_path tokens same_text
file_inode-IsStorable = record {
  simple = refl;
  size_fits = omega arith;
  lock_fits = omega arith;
  storage_fits = (omega arith, omega arith, omega arith);
}

parse_inode-inode_value_example : parse_inode json_text file_text ≡ ok file_inode
parse_inode-inode_value_example =
    parse_inode-inode_value json_text json_text-IsJson file_inode file_text file_inode-IsStorable
      file_runs
