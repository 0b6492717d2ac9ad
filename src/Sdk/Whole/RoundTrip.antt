-- ===== src/Sdk/Whole/RoundTrip.antt =====
-- A whole file is got back.
use spkdfs.Prelude.{
  ℕ, zero, suc, ◌-◌, ◌≤◌, ◌<◌, ◌≡◌, refl, sym, ap, ◌∙◌, ◌⊎◌, inl, inr, true, false, Bool-cases,
  some, List, [], ◌∷◌, ◌++◌, append-nil, map, length, length-append, take, drop, replicate, leb,
  All, length-drop, length-take-min, take-append, append-take-drop, take_all, take-nil,
  length-take-eq, drop_all, arith,
}
use spkdfs.Prelude.Int.{pos}
use spkdfs.Exn.{Text, Result, ok, throw, abort}
use spkdfs.Node.{Node, to_string}
use spkdfs.Inode.{Inode}
use spkdfs.Storage.{StorageType, get_block_size, storage_from_string}
use spkdfs.Reply.{Response}
use spkdfs.Sdk.Fsync.{PutOk}
use spkdfs.Storage.Coding.{ErasureCode, encode}
use spkdfs.Fragments.{decode_one_sub}
use spkdfs.Sdk.Transfer.{Datanodes, Called, check_call, encode_one, decode_one, with_fragments}
use spkdfs.Sdk.Transfer.Gather.{IsCode, needed, got}
use spkdfs.Sdk.Transfer.Recovery.{IsHash, IsListed, decode_one-encode_one}
use spkdfs.Sdk.Whole.{
  overlay, reads, resize_file, after_encode, put_loop, put_blocks, put, asked_for, when_ready,
  decode_each, get_typed, get,
}

length-overlay :
    (bs : ℕ) (rest block : Text) → length block ≡ bs → length (overlay (take bs rest) block) ≡ bs
unfolding overlay
length-overlay bs rest block h =
    let a = length-take-min bs rest in
    let b = length-drop (length (take bs rest)) block in
    length-append (take bs rest) (drop (length (take bs rest)) block) ∙ omega arith

-- What a block holds of the file.
take-overlay :
    (bs : ℕ) (rest block : Text)
    → length block ≡ bs
    → take (length rest) (overlay (take bs rest) block) ≡ take bs rest
unfolding overlay
take-overlay bs rest block h =
    let a = length-take-min bs rest in
    take-append (length rest) (take bs rest) (drop (length (take bs rest)) block)
    ∙ ap (λ t. t ++ take (length rest - length (take bs rest)) (drop (length (take bs rest)) block))
        (take_all (length rest) (take bs rest) (omega arith))
    ∙ ap (λ t. take bs rest ++ t)
        (nothing (elim (Bool-cases (leb bs (length rest))) [
          | inl full ↦ inl (drop_all (length (take bs rest)) block (ground arith))
          | inr short ↦ inr (ground arith)
        ]))
    ∙ append-nil (take bs rest)
  where
    nothing :
        (drop (length (take bs rest)) block ≡ []) ⊎ (length rest - length (take bs rest) ≡ 0)
        → take (length rest - length (take bs rest)) (drop (length (take bs rest)) block) ≡ []
    nothing (inl e) = ap (take (length rest - length (take bs rest))) e ∙ take-nil _
    nothing (inr e) = ap (λ k. take k (drop (length (take bs rest)) block)) e

length-replicate : (n : ℕ) → length (replicate {A = ℕ} n 0) ≡ n
length-replicate zero = refl
length-replicate (suc n) = ap suc (length-replicate n)

resize_file_lem :
    (content text : Text)
    → take (length content) text ≡ content
    → resize_file text (length content) ≡ content
unfolding resize_file
resize_file_lem content text e =
    let whole = take_all (length content) content (omega arith) in
    let long = length-take-eq (length content) text content (e ∙ sym whole) (omega arith) in
    let nothing : length content - length text ≡ 0 = omega arith in
    ap (λ k. take (length content) text ++ replicate k 0) nothing
    ∙ append-nil (take (length content) text)
    ∙ e

module _ (D : Datanodes) (code : ErasureCode) (online : D.State → List Node) (rounds : ℕ)
    (storage : StorageType) where
  -- Every call of `encode_one` ends with a text.
  abbrev pub Returns : Type 0
  Returns =
      (s : D.State) (block : Text)
      → (s' : D.State) × (text : Text) × (encode_one D code rounds (ok (map to_string (online s))) s
            storage block
          ≡ some (s', ok text))

  -- So many of the fragments of each block can be got as it takes.
  abbrev pub IsKept : D.State → List Text → Type 0
  IsKept later sub =
      All (λ text. needed storage ≤ length (got code D later (decode_one_sub text))) sub

  encoded :
      (s s' : D.State) (block text : Text) (r : Result (List Text))
      → with_fragments D rounds storage s r (ok (map to_string (online s))) ≡ some (s', ok text)
      → (all : List Text) × (r ≡ ok all)
  unfolding with_fragments
  encoded s s' block text (ok all) e = (all, refl)
  encoded s s' block text (throw x) e = absurd (cc)
  encoded s s' block text abort e = absurd (cc)

  module _ (law : IsCode code storage) (listed : (s : D.State) → All IsListed (online s))
      (hash : (block : Text) (all : List Text)
        → encode code storage block ≡ ok all
        → IsHash D.sha256sum all)
      (returns : Returns) where
    decoded :
        (s s' later : D.State) (block text : Text)
        → encode_one D code rounds (ok (map to_string (online s))) s storage block
          ≡ some (s', ok text)
        → needed storage ≤ length (got code D later (decode_one_sub text))
        → decode_one D code later storage text ≡ ok block
    unfolding encode_one
    decoded s s' later block text e enough =
        let (all, coded) = encoded s s' block text (encode code storage block) e in
        decode_one-encode_one code D rounds (online s) s s' later storage block text all law
          (listed s) coded (hash block all coded) e enough

    put_loop-stores :
        (bs fuel : ℕ) (rest block : Text) (s : D.State)
        → 0 < bs
        → length block ≡ bs
        → length rest ≤ fuel
        → (s' : D.State) × (sub : List Text) × (put_loop D code online rounds storage bs fuel rest
              block s
            ≡ some (s', ok sub))
          × ((later : D.State)
              → IsKept later sub
              → (text : Text) × (decode_each D code later storage sub ≡ ok text)
                × (take (length rest) text ≡ rest))
    unfolding put_loop after_encode reads decode_each
    put_loop-stores bs zero [] block s positive full h =
        let done : reads bs [] ≡ false = ground arith in
        (s, [], rw done refl, λ later kept. ([], refl, refl))
    put_loop-stores bs (suc fuel) [] block s positive full h =
        let done : reads bs [] ≡ false = ground arith in
        (s, [], rw done refl, λ later kept. ([], refl, refl))
    put_loop-stores bs zero (c ∷ rest) block s positive full h = absurd (omega arith)
    put_loop-stores bs (suc fuel) (c ∷ rest) block s positive full h =
        let left : Text = c ∷ rest in
        let more : reads bs (c ∷ rest) ≡ true = ground arith in
        let block' : Text = overlay (take bs (c ∷ rest)) block in
        let whole = length-overlay bs (c ∷ rest) block full in
        let l = length-drop bs (c ∷ rest) in
        let (s1, text1, enc) = returns s block' in
        let (s', sub, run, back) =
          put_loop-stores bs fuel (drop bs (c ∷ rest)) block' s1 positive whole (omega arith) in
        (
          s',
          text1 ∷ sub,
          rw more (rw enc (rw run refl)),
          λ later kept.
              let one = decoded s s1 later block' text1 enc kept.0 in
              let (text, d, same) = back later kept.1 in
              let count : length (c ∷ rest) - length block' ≡ length (drop bs (c ∷ rest)) =
                omega arith in
              (
                block' ++ text,
                rw one (rw d refl),
                take-append (length (c ∷ rest)) block' text
                    ∙ ap (λ t. t ++ take (length (c ∷ rest) - length block') text)
                        (take-overlay bs (c ∷ rest) block full)
                    ∙ ap (λ t. take bs (c ∷ rest) ++ t) (ap (λ k. take k text) count ∙ same)
                    ∙ append-take-drop bs (c ∷ rest),
              ),
        )

    -- A file that is put is got back. That is where the namenode refuses no request, every upload ends
    -- with a text, and from then on, whatever becomes of the datanodes, as long as for each block so
    -- many of its fragments can be got as it takes, and the inode has what `put` sent to the namenode
    -- last. Hashes hold no separator, and no other text has the hash of a fragment. The size of a block
    -- is positive, and fits an `int`, without which `get_block_size` is undefined.
    pub get-put_file :
        (bs fuel : ℕ) (storage_type content : Text) (to_put to_lock : Called Response)
        (to_put_ok : PutOk → Called Response) (s : D.State)
        → storage_from_string storage_type ≡ ok storage
        → get_block_size storage ≡ ok (pos bs)
        → 0 < bs
        → length content ≤ fuel
        → check_call to_put ≡ ok tt
        → check_call to_lock ≡ ok tt
        → ((request : PutOk) → check_call (to_put_ok request) ≡ ok tt)
        → (s' : D.State) × (request : PutOk) × (put D code online rounds fuel storage_type
              (some content)
              to_put
              to_lock
              to_put_ok
              s
            ≡ some (s', ok request))
          × ((later : D.State) (inode : Inode)
              → inode.storage_type_ptr ≡ some storage
              → inode.sub ≡ request.sub
              → inode.filesize ≡ request.filesize
              → IsKept later request.sub
              → get D code later (ok inode) true ≡ ok content)
    unfolding put put_blocks asked_for when_ready get get_typed
    get-put_file bs fuel storage_type content to_put to_lock to_put_ok s parsed size positive h
          put_ok lock_ok done_ok =
        let (s', sub, run, back) =
          put_loop-stores bs fuel content (replicate bs 0) s positive (length-replicate bs) h in
        (
          s',
          record { filesize = length content; sub = sub },
          rw parsed (
              rw put_ok (
                rw lock_ok (
                  rw size (
                    rw run
                      (rw (done_ok (record { filesize = length content; sub = sub })) refl))))),
          λ later inode typed same count kept.
              let (text, d, got_back) = back later kept in
              rw typed (rw same (rw d (rw count (ap ok (resize_file_lem content text got_back))))),
        )
