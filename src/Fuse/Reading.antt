-- ===== src/Fuse/Reading.antt =====
-- What a read through the mount returns, where the client reads as in Sdk/Read.
use spkdfs.Prelude.{
  ◌≡◌, refl, ap, ◌∙◌, ℕ, ◌+◌, ◌-◌, ◌≤◌, ◌<◌, ◌^◌, Bool, true, List, ◌∷◌, [], ◌++◌, length, take,
  drop, min, some, none, leb, take-append, length-drop, length-take-min, take-take, append-nil,
  length-append, take_all, arith,
}
use spkdfs.Prelude.Int.{pos, int_max, to_int}
use spkdfs.Exn.{Text, Result, ok}
use spkdfs.Inode.{Inode, inode_block_size}
use spkdfs.Sdk.Indexes.Covers.{to_int-small}
use spkdfs.Sdk.Read.{Files, read_data}
use spkdfs.Sdk.Read.Contents.{contents, IsCut, IsDecoded}
use spkdfs.Sdk.Read.Kept.{IsCache}
use spkdfs.Sdk.Read.Slice.{read_data-reads}
use spkdfs.Fuse.{Client, Mount, called, when_set, attempt, or_again, read}
use spkdfs.Fuse.Calls.{returned, undefined, spkdfs_read, read_result, copied, memcpy}

memcpy_inside : (s : Text) (size : ℕ) → size ≤ length s → memcpy s size ≡ some (take size s)
unfolding memcpy
memcpy_inside s size h =
    let fits : leb size (length s + 1) ≡ true = ground arith in
    let e : size - length s ≡ 0 = omega arith in
    rw fits (
      ap some (
        take-append size s (0 ∷ [])
        ∙ ap (λ k. take size s ++ take k (0 ∷ [])) e
        ∙ append-nil (take size s)))

memcpy_beyond : (s : Text) (size : ℕ) → length s + 1 < size → memcpy s size ≡ none
unfolding memcpy
memcpy_beyond s size h = ground arith

memcpy_one_more : (s : Text) (size : ℕ) → size ≡ length s + 1 → memcpy s size ≡ some (s ++ 0 ∷ [])
unfolding memcpy
memcpy_one_more s size h =
    let fits : leb size (length s + 1) ≡ true = ground arith in
    let all : length (s ++ 0 ∷ []) ≤ size = omega (arith, length-append s (0 ∷ [])) in
    rw fits (ap some (take_all size (s ++ 0 ∷ []) all))

module _ (C : Client) (decode : Text → Result Text) (opens : ℕ → Bool) where
  -- A read through the mount returns the content's bytes from the offset on where the file has as
  -- many as asked for. Where it has one fewer, a zero byte is put behind them and counted, and where
  -- it has fewer still, the callback copies past the end of what was read, which is undefined. That
  -- is where the client reads the file as `read_data` does, with the conditions under which that
  -- returns the bytes: the size of a block among them, which is positive and fits an `int`.
  pub spkdfs_read-reads :
      (m : Mount C.State) (s' : C.State) (path : Text) (bs : ℕ) (inode : Inode) (blocks : List Text)
      (files : Files) (offset size : ℕ)
      → m.sdk ≡ true
      → C.read_data m.state path offset size
        ≡ (s', (read_data decode opens files (some inode) offset size).1)
      → ((i : ℕ) → opens i ≡ true)
      → inode_block_size inode ≡ ok (pos bs)
      → 0 < bs
      → IsDecoded decode inode.sub blocks
      → IsCut bs blocks
      → IsCache files blocks
      → inode.filesize ≤ length (contents blocks)
      → inode.filesize ≤ int_max
      → offset + size < 2 ^ 64
      → (offset + size ≤ inode.filesize
          → spkdfs_read C path size offset m ≡ (
            record m { state = s' },
            returned (pos size) (some (take size (drop offset (contents blocks)))),
          ))
        × (size ≡ inode.filesize - offset + 1
            → spkdfs_read C path size offset m ≡ (
              record m { state = s' },
              returned
                  (to_int size)
                  (some (take (inode.filesize - offset) (drop offset (contents blocks)) ++ 0 ∷ [])),
            ))
        × (inode.filesize - offset + 1 < size
            → spkdfs_read C path size offset m ≡ (record m { state = s' }, undefined))
  unfolding spkdfs_read read attempt called when_set or_again read_result copied
  spkdfs_read-reads m s' path bs inode blocks files offset size set h all_open e positive d cut kept
        content fits bound =
      let (files', r, kept') =
        read_data-reads decode opens all_open bs inode blocks files offset size e positive d cut
          kept content fits bound in
      let call : C.read_data m.state path offset size
          ≡ (s', ok (take (min size (inode.filesize - offset)) (drop offset (contents blocks)))) =
        h ∙ ap (λ x. (s', x.1)) r in
      let l = length-drop offset (contents blocks) in
      let l' =
        length-take-min (min size (inode.filesize - offset)) (drop offset (contents blocks)) in
      (
        λ inside.
            let whole : min size (inode.filesize - offset) ≡ size = omega arith in
            let long : size ≤ length (take size (drop offset (contents blocks))) =
              omega (arith, length-take-min size (drop offset (contents blocks))) in
            rw call (
              rw set (
                rw whole (
                  rw (memcpy_inside _ size long) (
                    rw (take-take size (drop offset (contents blocks)))
                      (rw (to_int-small size (omega arith)) refl))))),
        λ one_more.
            let cut : min size (inode.filesize - offset) ≡ inode.filesize - offset = omega arith in
            let text = take (inode.filesize - offset) (drop offset (contents blocks)) in
            let long : size ≡ length text + 1 = omega (
              arith,
              l,
              length-take-min (inode.filesize - offset) (drop offset (contents blocks)),
            ) in
            rw call (rw set (rw cut (rw (memcpy_one_more text size long) refl))),
        λ beyond. rw call (
            rw set (
              rw
                (memcpy_beyond
                  (take (min size (inode.filesize - offset)) (drop offset (contents blocks))) size
                  (omega arith))
                refl)),
      )
