-- ===== src/Sdk/Transfer/Gather.antt =====
-- What the loop of `decode_one` gathers, and when that is enough to decode a block.
use spkdfs.Prelude.{
  ℕ, zero, suc, ◌+◌, ◌≤◌, ◌<◌, ◌≡◌, refl, sym, ap, subst, ◌∙◌, Bool, true, false, Bool-cases, inl,
  inr, Option, none, some, List, [], ◌∷◌, ◌++◌, append_assoc, length, length-append, take,
  replicate, All, ◌==◌, arith,
}
use spkdfs.Prelude.Int.{ℤ, pos, negsuc}
use spkdfs.Exn.{
  Text, Exception, ErrorMessage, Result, ok, throw, abort, ◌>>=◌, >>=-eq-ok, ok_injective,
}
use spkdfs.Text.{same_text, eq_of_same_text}
use spkdfs.Reply.{Response, check_answer, check_response}
use spkdfs.Storage.{StorageType, rs, re, get_decode_blocks}
use spkdfs.Storage.Coding.{
  ErasureCode, IsErasureCode, IsSelection, empty, lost, kept, IsSelection-nil, encode, decode,
  decode-encode_rs, rounds,
}
use spkdfs.Sdk.Transfer.{
  Datanodes, get_from_datanode, checked_data, verified, collect, after_get, Called, failed,
  answered,
}

-- The parameters with which a storage type gets a block back, and how many fragments it takes.
abbrev pub IsCode : ErasureCode → StorageType → Type 0
IsCode code (rs (pos k) (pos m) b) = (0 < k) × IsErasureCode code k m
IsCode code (rs k m b) = ⊥
IsCode code (re replications b) = Unit

abbrev pub needed : StorageType → ℕ
needed (rs k m b) = rounds k
needed (re replications b) = 1

unfoldable pub push_ok : Result Text → List Text → List Text
push_ok (ok data') rest = data' ∷ rest
push_ok (throw e) rest = rest
push_ok abort rest = rest

pub IsSelection-append :
    {xs ys : List Text} (zs : List Text) → IsSelection xs ys → IsSelection xs (ys ++ zs)
IsSelection-append zs empty = IsSelection-nil zs
IsSelection-append zs (lost y s) = lost y (IsSelection-append zs s)
IsSelection-append zs (kept y s) = kept y (IsSelection-append zs s)

pub IsSelection-take : (n : ℕ) {xs ys : List Text} → IsSelection xs ys → IsSelection (take n xs) ys
IsSelection-take zero {ys = ys} s = IsSelection-nil ys
IsSelection-take (suc n) empty = empty
IsSelection-take (suc n) (lost y s) = lost y (IsSelection-take (suc n) s)
IsSelection-take (suc n) (kept y s) = kept y (IsSelection-take n s)

pub length-take : (n : ℕ) (xs : List Text) → n ≤ length xs → length (take n xs) ≡ n
length-take zero xs h = refl
length-take (suc n) [] h = absurd (omega arith)
length-take (suc n) (x ∷ xs) h = omega (arith, length-take n xs)

take-append_one :
    (xs : List Text) (d : Text) (ys : List Text) (n : ℕ)
    → length (xs ++ d ∷ []) ≡ n
    → take n (xs ++ d ∷ ys) ≡ xs ++ d ∷ []
take-append_one [] d ys zero h = absurd (omega arith)
take-append_one [] d ys (suc zero) h = refl
take-append_one [] d ys (suc (suc n)) h = absurd (omega arith)
take-append_one (x ∷ xs) d ys zero h = absurd (omega arith)
take-append_one (x ∷ xs) d ys (suc n) h = ap (λ l. x ∷ l) (take-append_one xs d ys n (omega arith))

All-IsSelection : (P : Text → Type 0) {xs ys : List Text} → IsSelection xs ys → All P ys → All P xs
All-IsSelection P empty h = tt
All-IsSelection P (lost y s) h = All-IsSelection P s h.1
All-IsSelection P (kept y s) h = (h.0, All-IsSelection P s h.1)

All-replicate : (n : ℕ) (block : Text) → All (λ t. t ≡ block) (replicate n block)
All-replicate zero block = tt
All-replicate (suc n) block = (refl, All-replicate n block)

NotAborted : {A : Type 0} → Result A → Type 0
NotAborted (ok a) = Unit
NotAborted (throw e) = Unit
NotAborted abort = ⊥

module _ {A B : Type 0} where
  NotAborted-bind :
      (m : Result A) (f : A → Result B)
      → NotAborted m
      → ((a : A) → NotAborted (f a))
      → NotAborted (m >>= f)
  unfolding NotAborted
  NotAborted-bind (ok a) f h k = k a
  NotAborted-bind (throw e) f h k = tt
  NotAborted-bind abort f h k = h

check_response-NotAborted : (r : Response) → NotAborted (check_response r)
unfolding check_response NotAborted
check_response-NotAborted r = go r.success r.fail_info
  where
    go : (b : Bool) (o : Option ErrorMessage) → NotAborted (check_answer b o)
    go true o = tt
    go false none = tt
    go false (some e) = tt

module _ (code : ErasureCode) where
  -- Replication loses nothing while one copy is left.
  decode-encode_re :
      (r b : ℤ) (block : Text) {all vec : List Text}
      → encode code (re r b) block ≡ ok all
      → IsSelection vec all
      → 1 ≤ length vec
      → decode code (re r b) vec ≡ ok block
  unfolding encode decode
  decode-encode_re r b block {vec = []} e s h = absurd (omega arith)
  decode-encode_re r b block {all} {vec = x ∷ vec} e s h =
      ap ok
        (All-IsSelection (λ t. t ≡ block) s
          (subst (All (λ t. t ≡ block)) (ok_injective e) (All-replicate (rounds r) block))).0

  pub decode-encode :
      (storage : StorageType) (block : Text) {all vec : List Text}
      → IsCode code storage
      → encode code storage block ≡ ok all
      → IsSelection vec all
      → needed storage ≤ length vec
      → decode code storage vec ≡ ok block
  decode-encode (rs (pos k) (pos m) b) block {all} {vec} law e s h =
      decode-encode_rs code k m b law.1 block all vec e law.0 s h
  decode-encode (rs (pos k) (negsuc m) b) block law e s h = absurd law
  decode-encode (rs (negsuc k) m b) block law e s h = absurd law
  decode-encode (re r b) block law e s h = decode-encode_re r b block e s h

  pub needed_positive : (storage : StorageType) → IsCode code storage → 0 < needed storage
  needed_positive (rs (pos k) (pos m) b) law = law.0
  needed_positive (rs (pos k) (negsuc m) b) law = absurd law
  needed_positive (rs (negsuc k) m b) law = absurd law
  needed_positive (re r b) law = omega arith

  pub get_decode_blocks-needed :
      (storage : StorageType)
      → IsCode code storage
      → get_decode_blocks storage ≡ pos (needed storage)
  unfolding get_decode_blocks
  get_decode_blocks-needed (rs (pos k) (pos m) b) law = refl
  get_decode_blocks-needed (rs (pos k) (negsuc m) b) law = absurd law
  get_decode_blocks-needed (rs (negsuc k) m b) law = absurd law
  get_decode_blocks-needed (re r b) law = refl

  module _ (D : Datanodes) (s : D.State) where
    -- The fragments that can be got, in the order of their places.
    unfoldable pub got : List (Text × Text) → List Text
    unfolding push_ok
    got [] = []
    got ((node, blkid) ∷ res) = push_ok (get_from_datanode D s node blkid) (got res)

    checked_data-NotAborted : (c : Called (Response × Text)) → NotAborted (checked_data c)
    unfolding checked_data NotAborted
    checked_data-NotAborted (failed what) = tt
    checked_data-NotAborted (answered (response, data')) =
        NotAborted-bind (check_response response) (λ _. ok data')
          (check_response-NotAborted response) (λ _. tt)

    verified-NotAborted : (data' blkid : Text) (b : Bool) → NotAborted (verified D data' blkid b)
    unfolding verified NotAborted
    verified-NotAborted data' blkid true = tt
    verified-NotAborted data' blkid false = tt

    get_from_datanode-NotAborted :
        (node blkid : Text) → NotAborted (get_from_datanode D s node blkid)
    unfolding get_from_datanode
    get_from_datanode-NotAborted node blkid =
        NotAborted-bind (checked_data (D.call_get s node blkid)) _
          (checked_data-NotAborted (D.call_get s node blkid))
          (λ data'. verified-NotAborted data' blkid (same_text (D.sha256sum data') blkid))

    -- What is got has the id that it was asked for.
    pub get_from_datanode-eq-ok :
        (node blkid : Text) {data' : Text}
        → get_from_datanode D s node blkid ≡ ok data'
        → D.sha256sum data' ≡ blkid
    unfolding get_from_datanode
    get_from_datanode-eq-ok node blkid e =
        let (found, c, r) = >>=-eq-ok (checked_data (D.call_get s node blkid)) _ e in
        elim (Bool-cases (same_text (D.sha256sum found) blkid)) [
          | inl same ↦
              ap D.sha256sum (sym (ok_injective (rw same at r)))
              ∙ eq_of_same_text (D.sha256sum found) blkid same
          | inr other ↦ absurd (throw_ok (rw other at r))
        ]
      where
        throw_ok : {x : Exception} {d : Text} → throw x ≡ ok d → ⊥
        throw_ok q = cc

    module _ (storage : StorageType) (k : ℕ) (block : Text) where
      -- The loop of `decode_one` returns what the first `k` of them are decoded to.
      pub collect-got :
          (res : List (Text × Text)) (datas : List Text)
          → length datas < k
          → k ≤ length datas + length (got res)
          → decode code storage (take k (datas ++ got res)) ≡ ok block
          → collect D code storage k s res datas ≡ ok block
      unfolding collect got NotAborted
      collect-got [] datas below enough e = absurd (omega arith)
      collect-got ((node, blkid) ∷ res) datas below enough e =
          go (get_from_datanode D s node blkid) refl enough e (λ d. collect-got res d)
        where
          go :
              (r : Result Text)
              → get_from_datanode D s node blkid ≡ r
              → k ≤ length datas + length (push_ok r (got res))
              → decode code storage (take k (datas ++ push_ok r (got res))) ≡ ok block
              → ((d : List Text)
                  → length d < k
                  → k ≤ length d + length (got res)
                  → decode code storage (take k (d ++ got res)) ≡ ok block
                  → collect D code storage k s res d ≡ ok block)
              → after_get D code storage k datas r (collect D code storage k s res) ≡ ok block
          go (throw x) g enough e more = more datas below enough e
          go abort g enough e more =
              absurd (subst NotAborted g (get_from_datanode-NotAborted node blkid))
          go (ok data') g enough e more = elim (Bool-cases (length (datas ++ data' ∷ []) == k)) [
            | inl full ↦
                let n : length (datas ++ data' ∷ []) ≡ k = ground (arith, full) in
                let whole =
                  ap (λ l. decode code storage l) (take-append_one datas data' (got res) k n) in
                ground (arith, full, sym whole ∙ e)
            | inr space ↦
                let one = length-append datas (data' ∷ []) in
                let rest =
                  more (datas ++ data' ∷ []) (ground (arith, space, one)) (omega (arith, one)) (
                    ap (λ l. decode code storage (take k l))
                      (append_assoc datas (data' ∷ []) (got res))
                    ∙ e) in
                ground (arith, space, rest)
          ]
