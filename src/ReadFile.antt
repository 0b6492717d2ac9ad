-- ===== src/ReadFile.antt =====
-- `read_file` of src/common/utils.cpp, for a file that can be opened and read: its size is
-- converted to an `int`, which is right below 2 GiB.
use spkdfs.Prelude.{ℕ, ◌-◌, ◌%◌, ◌^◌, ◌≤◌, ◌<◌, ◌≡◌, ap, ◌∙◌, length, take, take_all, arith}
use spkdfs.Prelude.Int.{ℤ, pos, negsuc, to_int, int_max}
use spkdfs.Exn.{Text, Result, ok, throw, runtime_error}
use spkdfs.Text.{codes}

-- `block.resize(filesize)`: a negative size is too long a text. Only so many bytes are read.
unfoldable pub read_size : Text → ℤ → Result Text
read_size bytes (pos n) = ok (take n bytes)
read_size bytes (negsuc n) = throw (runtime_error (codes "basic_string::_M_replace_aux"))

-- `int filesize = fs::file_size(path)`, and the bytes that are read.
unfoldable pub read_bytes : Text → Result Text
unfolding read_size
read_bytes bytes = read_size bytes (to_int (length bytes))

pub read_bytes-fits : (bytes : Text) → length bytes ≤ int_max → read_bytes bytes ≡ ok bytes
unfolding read_bytes to_int
read_bytes-fits bytes h =
    let e : to_int (length bytes) ≡ pos (length bytes) = ground arith in
    ap (read_size bytes) e ∙ ap ok (take_all (length bytes) bytes (omega arith))

-- From 4 GiB on, the size is what is left of it in 32 bits.
pub read_bytes-wraps :
    (bytes : Text) (n : ℕ)
    → length bytes % 2 ^ 32 ≡ n
    → n ≤ int_max
    → read_bytes bytes ≡ ok (take n bytes)
unfolding read_bytes to_int
read_bytes-wraps bytes n e h =
    let size : to_int (length bytes) ≡ pos n = ground arith in ap (read_size bytes) size

pub read_bytes-fails :
    (bytes : Text)
    → int_max < length bytes % 2 ^ 32
    → read_bytes bytes ≡ throw (runtime_error (codes "basic_string::_M_replace_aux"))
unfolding read_bytes to_int
read_bytes-fails bytes h =
    let size : to_int (length bytes) ≡ negsuc (2 ^ 32 - 1 - length bytes % 2 ^ 32) = ground arith in
    ap (read_size bytes) size
