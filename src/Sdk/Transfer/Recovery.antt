-- ===== src/Sdk/Transfer/Recovery.antt =====
-- A block is got back from the fragments that can still be got.
use spkdfs.Prelude.{
  ℕ, ◌≤◌, ◌≡◌, refl, sym, ap, subst, ◌∙◌, Option, none, some, some_injective, List, [], ◌∷◌, ◌++◌,
  map, length, take, All, arith,
}
use spkdfs.Exn.{Text, Result, ok, throw, abort, ok_injective}
use spkdfs.Text.Split.{Lacks, tokens}
use spkdfs.Node.{Node, to_string}
use spkdfs.Node.RoundTrip.{IsPlain}
use spkdfs.Storage.{StorageType}
use spkdfs.Storage.Coding.{ErasureCode, IsSelection, empty, lost, kept, encode}
use spkdfs.Fragments.{encode_one_sub, decode_one_sub}
use spkdfs.Fragments.RoundTrip.{Placed, IsPlaced, entry, decode_one_sub-encode_one_sub}
use spkdfs.Sdk.Transfer.{
  Datanodes, get_from_datanode, decode_one, encode_one, send_all, upload, Ended, ended, undefined,
  fresh,
}
use spkdfs.Sdk.Transfer.Upload.{stored, fragment_of, IsSent, upload-IsSent}
use spkdfs.Sdk.Transfer.Gather.{
  IsCode, needed, push_ok, got, IsSelection-append, IsSelection-take, length-take, decode-encode,
  needed_positive, get_decode_blocks-needed, get_from_datanode-eq-ok, collect-got,
}

-- What the hashes give: texts without the separators, as digits are, and no two texts of one hash
-- among the fragments.
pub record IsHash (sha256sum : Text → Text) (all : List Text) : Type 0 where
  pub no_bar : (t : Text) → Lacks b'|' (sha256sum t)
  pub no_comma : (t : Text) → Lacks b',' (sha256sum t)
  pub no_collision : All (λ f. (t : Text) → sha256sum t ≡ sha256sum f → t ≡ f) all

-- A datanode whose address holds none of the separators.
abbrev pub IsListed : Node → Type 0
IsListed n = IsPlain n × Lacks b'|' n.ip

All-append_left : (P : Text → Type 0) (xs ys : List Text) → All P (xs ++ ys) → All P xs
All-append_left P [] ys h = tt
All-append_left P (x ∷ xs) ys h = (h.0, All-append_left P xs ys h.1)

module _ (code : ErasureCode) (D : Datanodes) where
  abbrev place : Node × Text → Placed
  place (n, fragment) = record { node = n; blkid = D.sha256sum fragment }

  map-entry-place :
      (placed : List (Node × Text)) → map entry (map place placed) ≡ map (stored D) placed
  map-entry-place [] = refl
  map-entry-place (q ∷ placed) = ap (λ l. stored D q ∷ l) (map-entry-place placed)

  place-IsPlaced :
      {all : List Text}
      → IsHash D.sha256sum all
      → (placed : List (Node × Text)) → All (λ (q : Node × Text). IsListed q.0) placed
      → All IsPlaced (map place placed)
  place-IsPlaced hash [] h = tt
  place-IsPlaced hash (q ∷ placed) h = (
    record {
      plain = h.0.0;
      no_bar = h.0.1;
      id_no_bar = hash.no_bar q.1;
      id_no_comma = hash.no_comma q.1;
    },
    place-IsPlaced hash placed h.1,
  )

  -- The text of what was stored is read back.
  decode_one_sub-stored :
      {all : List Text}
      → IsHash D.sha256sum all
      → (placed : List (Node × Text)) {text : Text} → All (λ (q : Node × Text). IsListed q.0) placed
      → encode_one_sub (map (stored D) placed) ≡ ok text
      → decode_one_sub text ≡ map (stored D) placed
  unfolding encode_one_sub
  decode_one_sub-stored hash [] h e =
      subst (λ t. decode_one_sub t ≡ []) (ok_injective e) (unfold decode_one_sub tokens in refl)
  decode_one_sub-stored hash (q ∷ placed) h e =
      let (t, enc, dec) =
        decode_one_sub-encode_one_sub (place q) (map place placed)
          (place-IsPlaced hash (q ∷ placed) h) in
      let same = map-entry-place (q ∷ placed) in
      subst (λ t. decode_one_sub t ≡ map (stored D) (q ∷ placed))
        (ok_injective (sym enc ∙ ap encode_one_sub same ∙ e)) (dec ∙ same)

  -- What is got of the stored fragments is a selection of them.
  got-IsSelection :
      (later : D.State) (placed : List (Node × Text))
      → All (λ f. (t : Text) → D.sha256sum t ≡ D.sha256sum f → t ≡ f) (map (fragment_of D) placed)
      → IsSelection (got code D later (map (stored D) placed)) (map (fragment_of D) placed)
  unfolding got
  got-IsSelection later [] h = empty
  got-IsSelection later ((n, fragment) ∷ placed) h =
      go (get_from_datanode D later (to_string n) (D.sha256sum fragment)) refl
        (got-IsSelection later placed h.1)
    where
      go :
          (r : Result Text)
          → get_from_datanode D later (to_string n) (D.sha256sum fragment) ≡ r
          → IsSelection (got code D later (map (stored D) placed)) (map (fragment_of D) placed)
          → IsSelection
              (push_ok r (got code D later (map (stored D) placed)))
              (fragment ∷ map (fragment_of D) placed)
      go (ok data') g s =
          subst
            (λ x.
              IsSelection (x ∷ got code D later (map (stored D) placed))
                (fragment ∷ map (fragment_of D) placed))
            (sym (
              h.0 data'
                (get_from_datanode-eq-ok code D later (to_string n) (D.sha256sum fragment) g)))
            (kept fragment s)
      go (throw x) g s = lost fragment s
      go abort g s = lost fragment s

  -- What a call of `encode_one` that ends with a text has stored.
  encode_one-IsSent :
      (fuel : ℕ) (nodes : List Node)
      → All IsListed nodes
      → (s s1 : D.State) (storage : StorageType) (block : Text) {all : List Text} {text : Text}
      → encode code storage block ≡ ok all
      → encode_one D code fuel (ok (map to_string nodes)) s storage block ≡ some (s1, ok text)
      → (hashs : List (Text × Text)) × (rest : List Text) × (encode_one_sub hashs ≡ ok text)
        × IsSent D IsListed all rest hashs
  unfolding encode_one send_all
  encode_one-IsSent fuel nodes listed s s1 storage block {all} {text} coded e =
      go (upload D fuel storage (map to_string nodes) s all (fresh D)) refl (rw coded at e)
    where
      go :
          (o : Option (Ended D.State))
          → upload D fuel storage (map to_string nodes) s all (fresh D) ≡ o
          → send_all D s o ≡ some (s1, ok text)
          → (hashs : List (Text × Text)) × (rest : List Text) × (encode_one_sub hashs ≡ ok text)
            × IsSent D IsListed all rest hashs
      go none g q = absurd (cc)
      go (some undefined) g q =
          absurd (aborted (ap (λ (r : D.State × Result Text). r.1) (some_injective q)))
        where
          aborted : {t : Text} → abort ≡ ok t → ⊥
          aborted x = cc
      go (some (ended s2 hashs)) g q =
          let (rest, sent) =
            upload-IsSent D storage nodes IsListed listed all fuel s all (fresh D) g
              (record { placed = []; written = refl; parts = refl; at_nodes = tt }) in
          (hashs, rest, ap (λ (r : D.State × Result Text). r.1) (some_injective q), sent)

  -- A block is stored, whichever calls of `put` fail, if `encode_one` ends with a text. From then on,
  -- whatever has become of the datanodes and whatever they answer, `decode_one` returns the block as
  -- long as so many of the fragments written down in the text can be got as the storage type needs.
  -- Hashes hold no separator, and no other text has the hash of a fragment.
  pub decode_one-encode_one :
      (fuel : ℕ) (nodes : List Node) (s s1 later : D.State) (storage : StorageType)
      (block text : Text) (all : List Text)
      → IsCode code storage
      → All IsListed nodes
      → encode code storage block ≡ ok all
      → IsHash D.sha256sum all
      → encode_one D code fuel (ok (map to_string nodes)) s storage block ≡ some (s1, ok text)
      → needed storage ≤ length (got code D later (decode_one_sub text))
      → decode_one D code later storage text ≡ ok block
  unfolding decode_one
  decode_one-encode_one fuel nodes s s1 later storage block text all law listed coded hash e
        enough =
      let (hashs, rest, written, sent) =
        encode_one-IsSent fuel nodes listed s s1 storage block coded e in
      let k = needed storage in
      let res : decode_one_sub text ≡ map (stored D) sent.placed =
        decode_one_sub-stored hash sent.placed sent.at_nodes
          (ap encode_one_sub (sym sent.written) ∙ written) in
      let none_collide =
        All-append_left (λ f. (t : Text) → D.sha256sum t ≡ D.sha256sum f → t ≡ f)
          (map (fragment_of D) sent.placed) rest
          (subst (λ l. All (λ f. (t : Text) → D.sha256sum t ≡ D.sha256sum f → t ≡ f) l)
            (sym sent.parts) hash.no_collision) in
      let here =
        subst (λ l. IsSelection (got code D later l) (map (fragment_of D) sent.placed)) (sym res)
          (got-IsSelection later sent.placed none_collide) in
      let chosen =
        subst (IsSelection (take k (got code D later (decode_one_sub text)))) sent.parts
          (IsSelection-append rest (IsSelection-take k here)) in
      let decoded =
        decode-encode code storage block law coded chosen
          (omega (arith, length-take k (got code D later (decode_one_sub text)) enough)) in
      rw (get_decode_blocks-needed code storage law) (
        collect-got code D later storage k block (decode_one_sub text) []
          (needed_positive code storage law) (omega arith) decoded)
