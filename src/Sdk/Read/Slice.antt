-- ===== src/Sdk/Read/Slice.antt =====
-- What reading a range of a file returns, for its content in blocks.
use spkdfs.Prelude.{
  ℕ, zero, suc, ◌+◌, ◌-◌, ◌*◌, ◌%◌, ◌^◌, ◌≤◌, ◌<◌, ◌≡◌, refl, sym, ap, subst, ◌∙◌, inl, inr, Bool,
  true, Bool-cases, some, List, [], ◌∷◌, ◌++◌, length, take, drop, take-append, drop-add, drop-take,
  length-take-eq, length-drop, get_elem?-drop, get_elem?, replicate, ltb, leb, min, arith,
}
use spkdfs.Prelude.Int.{pos, int_max}
use spkdfs.Exn.{Text, Result, ok}
use spkdfs.Inode.{Inode, inode_block_size}
use spkdfs.ReadFile.{read_bytes-fits}
use spkdfs.Sdk.Indexes.{get_indexs}
use spkdfs.Sdk.Indexes.Covers.{get_indexs-covers, inode_block_size-IsInt}
use spkdfs.Sdk.Read.{
  Files, set_file, zeros, read_block, read_loop, read_data, read_or_load, load, stored, after_block,
  read_indexs, slice, sliced, read_range, clipped, read_file_data, get_inode,
}
use spkdfs.Sdk.Read.Contents.{
  contents, IsCut, IsDecoded, length-contents, IsCut-head, IsCut-tail, IsCut-rest, contents-drop,
  IsDecoded-drop, IsCut-drop,
}
use spkdfs.Sdk.Read.Kept.{IsCache, set_file-IsCache}

clipped_lem :
    (filesize offset size : ℕ)
    → offset ≤ filesize
    → offset + size < 2 ^ 64
    → clipped filesize offset size ≡ min size (filesize - offset)
unfolding clipped
clipped_lem filesize offset size h k =
    let e : (offset + size) % 2 ^ 64 ≡ offset + size = omega arith in rw e (ground arith)

slice_lem :
    (start offset size : ℕ) (s text : Text)
    → start ≤ offset
    → take (offset - start + size) s ≡ take (offset - start + size) (drop start text)
    → offset - start + size ≤ length (drop start text)
    → slice start offset size s ≡ ok (take size (drop offset text))
unfolding slice
slice_lem start offset size s text h e l =
    let a : leb start offset ≡ true = ground arith in
    let long = length-take-eq (offset - start + size) s (drop start text) e l in
    let b : leb (offset - start + size) (length s) ≡ true = ground arith in
    let whole : start + (offset - start) ≡ offset = omega arith in
    rw a (
      rw b (
        ap ok (
          sym (drop-take (offset - start) size s)
          ∙ ap (drop (offset - start)) e
          ∙ drop-take (offset - start) size (drop start text)
          ∙ ap (take size)
              (sym (drop-add start (offset - start) text) ∙ ap (λ k. drop k text) whole))))

reach_from :
    (bs first d offset size : ℕ)
    → first * bs ≤ offset
    → offset + size < (first + d) * bs
    → offset - first * bs + size ≤ d * bs
reach_from bs first d offset size a b =
    let e : (first + d) * bs ≡ first * bs + d * bs = grind arith in omega arith

first_before :
    (bs first last offset : ℕ) → first * bs ≤ offset → offset < (last + 1) * bs → first ≤ last + 1
first_before bs first last offset a b = grind arith

-- A range inside the content ends in one of its blocks, or behind the last.
last_near : (bs last count size : ℕ) → 0 < bs → last * bs ≤ size → size ≤ count * bs → last ≤ count
last_near bs last count size positive a b = grind arith

rounds_reach :
    (bs first last offset size : ℕ)
    → first * bs ≤ offset
    → offset + size < (last + 1) * bs
    → offset - first * bs + size ≤ (last + 1 - first) * bs
rounds_reach bs first last offset size a b =
    let h = first_before bs first last offset a (omega arith) in
    let e : last + 1 ≡ first + (last + 1 - first) = omega arith in
    reach_from bs first (last + 1 - first) offset size a (subst (λ k. offset + size < k * bs) e b)

module _ (decode : Text → Result Text) (opens : ℕ → Bool)
    (all_open : (i : ℕ) → opens i ≡ true) where
  read_block-reads :
      (files : Files) (blocks : List Text) (i : ℕ) (blks b : Text)
      → get_elem? blocks i ≡ some b
      → decode blks ≡ ok b
      → length b ≤ int_max
      → IsCache files blocks
      → (files' : Files) × (read_block decode opens files i blks ≡ (files', ok b))
        × IsCache files' blocks
  unfolding read_block read_or_load load stored
  read_block-reads files blocks i blks b here d short h = elim (h i b here) [
    | inl e ↦ (
      set_file i b files,
      rw e (rw (all_open i) (rw d refl)),
      set_file-IsCache files blocks i b here h,
    )
    | inr e ↦ (files, rw e (ap (λ r. (files, r)) (read_bytes-fits b short)), h)
  ]

  -- The loop keeps the cache, and what it reads agrees with the content as far as the rounds go.
  -- It goes at most one block further than the blocks there are.
  read_loop-reads :
      (size : ℕ) (blocks : List Text) (files : Files) (i n : ℕ) (subs left : List Text)
      → ((k : ℕ) → get_elem? left k ≡ get_elem? blocks (i + k))
      → IsDecoded decode subs left
      → IsCut size left
      → IsCache files blocks
      → size ≤ int_max
      → n ≤ length left + 1
      → (files' : Files) × (text : Text) × (read_loop decode opens (ok (pos size)) files i n subs
          ≡ (files', ok text))
        × IsCache files' blocks
        × ((p : ℕ)
            → p ≤ n * size
            → p ≤ length (contents left)
            → take p text ≡ take p (contents left))
  unfolding read_loop zeros after_block
  read_loop-reads size blocks files i zero subs left at d cut h fits near =
      (files, [], refl, h, λ p a l. let e : p ≡ 0 = omega arith in rw e refl)
  read_loop-reads size blocks files i (suc n) [] [] at d cut h fits near =
      let one : n ≡ 0 = omega arith in
      let whole : leb (suc n * size) int_max ≡ true = rw one (ground arith) in
      (
        files,
        replicate (suc n * size) 0,
        rw whole refl,
        h,
        λ p a l. let e : p ≡ 0 = omega arith in rw e refl,
      )
  read_loop-reads size blocks files i (suc n) [] (b ∷ left) at d cut h fits near = absurd d
  read_loop-reads size blocks files i (suc n) (s ∷ subs) [] at d cut h fits near = absurd d
  read_loop-reads size blocks files i (suc n) (s ∷ subs) (b ∷ left) at d cut h fits near =
      let here : get_elem? blocks i ≡ some b = sym (at 0 ∙ ap (get_elem? blocks) (omega arith)) in
      let head = IsCut-head size b left cut in
      let short : length b ≤ int_max = omega arith in
      let (files1, r1, h1) = read_block-reads files blocks i s b here d.0 short h in
      let at' : (k : ℕ) → get_elem? left k ≡ get_elem? blocks (i + 1 + k) =
        λ k. at (suc k) ∙ ap (get_elem? blocks) (omega arith) in
      let (files2, text, r2, h2, agrees) =
        read_loop-reads size blocks files1 (i + 1) n subs left at' d.1 (IsCut-tail size b left cut)
          h1 fits (omega arith) in
      (
        files2,
        b ++ text,
        rw r1 (rw r2 refl),
        h2,
        λ p a l.
            let (a', l') = IsCut-rest size n p b left cut (omega arith) l in
            take-append p b text
            ∙ ap (λ t. take p b ++ t) (agrees (p - length b) a' l')
            ∙ sym (take-append p b (contents left)),
      )

  read_data-inside :
      (bs : ℕ) (inode : Inode) (blocks : List Text) (files : Files) (offset size : ℕ)
      → inode_block_size inode ≡ ok (pos bs)
      → 0 < bs
      → IsDecoded decode inode.sub blocks
      → IsCut bs blocks
      → IsCache files blocks
      → offset + size ≤ length (contents blocks)
      → offset + size ≤ int_max
      → (files' : Files) × (read_range decode opens files inode offset size
            (get_indexs inode offset size)
          ≡ (files', ok (take size (drop offset (contents blocks)))))
        × IsCache files' blocks
  unfolding read_range sliced read_indexs
  read_data-inside bs inode blocks files offset size e positive d cut h inside fits =
      let (first, last, run, a, b, c, reach, wrap) =
        get_indexs-covers inode bs offset size e positive fits in
      let near : last + 1 - first ≤ length (drop first blocks) + 1 = omega (
        arith,
        length-drop first blocks,
        last_near bs last (length blocks) (length (contents blocks)) positive (omega arith)
            (length-contents bs blocks cut),
      ) in
      let in_int : leb (first * bs) int_max ≡ true = ground arith in
      let (files', text, r, h', agrees) =
        read_loop-reads bs blocks files first (last + 1 - first) (drop first inode.sub)
          (drop first blocks) (λ k. get_elem?-drop first k blocks)
          (IsDecoded-drop decode first inode.sub blocks d) (IsCut-drop bs first blocks cut) h
          (inode_block_size-IsInt inode bs e) near in
      let same = contents-drop bs first blocks cut (omega arith) in
      let l = length-drop (first * bs) (contents blocks) in
      let p = offset - first * bs + size in
      let long : p ≤ length (drop (first * bs) (contents blocks)) = omega arith in
      let agree : take p text ≡ take p (drop (first * bs) (contents blocks)) =
        subst (λ t. take p text ≡ take p t) same
          (agrees p (rounds_reach bs first last offset size a reach) (rw same long)) in
      (
        files',
        rw run (
            rw e (
              rw r (
                rw in_int (
                  ap (λ x. (files', x))
                    (slice_lem (first * bs) offset size text (contents blocks) a agree long))))),
        h',
      )

  -- Reading a range of an open file returns the content's bytes from the offset on, as many as asked
  -- for or as the file has left, and nothing past its end, whichever blocks are kept in files
  -- already; and the kept blocks are still right. That is for a file whose every block but the last
  -- is full, whose blocks decode, whose size and the size of whose blocks fit an `int`, the latter
  -- positive, and where no file fails to open.
  pub read_data-reads :
      (bs : ℕ) (inode : Inode) (blocks : List Text) (files : Files) (offset size : ℕ)
      → inode_block_size inode ≡ ok (pos bs)
      → 0 < bs
      → IsDecoded decode inode.sub blocks
      → IsCut bs blocks
      → IsCache files blocks
      → inode.filesize ≤ length (contents blocks)
      → inode.filesize ≤ int_max
      → offset + size < 2 ^ 64
      → (files' : Files) × (read_data decode opens files (some inode) offset size ≡ (
        files',
        ok (take (min size (inode.filesize - offset)) (drop offset (contents blocks))),
      ))
        × IsCache files' blocks
  unfolding read_data read_file_data get_inode
  read_data-reads bs inode blocks files offset size e positive d cut h content fits bound =
      elim (Bool-cases (ltb inode.filesize offset)) [
        | inl past ↦
            let zero_left : 0 ≡ min size (inode.filesize - offset) = ground arith in
            (
              files,
              rw past (ap (λ k. (files, ok (take k (drop offset (contents blocks))))) zero_left),
              h,
            )
        | inr within ↦
            let k : offset ≤ inode.filesize = ground arith in
            let (files', r, h') =
              read_data-inside bs inode blocks files offset (min size (inode.filesize - offset)) e
                positive d cut h (omega arith) (omega arith) in
            (files', rw within (rw (clipped_lem inode.filesize offset size k bound) r), h')
      ]
