-- ===== src/StringBuffer.antt =====
-- The dynamic string `string_t` of src/util.c: a buffer of `alloc` cells that grows by doubling, with
-- the text in its first `len` cells and a zero behind it. `realloc` is taken to succeed; what it
-- leaves in new cells is a parameter, `junk`. Sizes stay far below 2^64, since the buffer has to fit
-- in memory.
pub mod Cells
pub mod Contents
use gantt.Prelude.{
  ℕ, zero, suc, ◌+◌, ◌-◌, ◌*◌, Option, none, some, List, [], ◌∷◌, ◌++◌, ltb, leb, ◌==◌, length, set,
  take, replicate, if◌then◌else◌,
}
use gantt.Text.{Bytes}

pub record StringBuf : Type 0 where
  pub cells : List ℕ
  pub len : ℕ
  pub alloc : ℕ

-- `STRING_INITIAL_SIZE`
abbrev pub string_initial_size : ℕ
string_initial_size = 64

-- `memcpy`: the bytes from the offset on; a write behind the end of the buffer is lost here.
unfoldable pub write_at : List ℕ → ℕ → Bytes → List ℕ
write_at [] i src = []
write_at (c ∷ cells) zero [] = c ∷ cells
write_at (c ∷ cells) zero (s ∷ src) = s ∷ write_at cells zero src
write_at (c ∷ cells) (suc i) src = c ∷ write_at cells i src

-- The loop that doubles. Each round adds one at least, so `needed` is fuel enough.
unfoldable pub grow : ℕ → ℕ → ℕ → ℕ
grow zero new_alloc needed = new_alloc
grow (suc fuel) new_alloc needed =
    let rest = grow fuel (new_alloc * 2) needed in if ltb new_alloc needed then rest else new_alloc

unfoldable pub new_alloc : ℕ → ℕ → ℕ
new_alloc alloc needed = grow needed (if alloc == 0 then string_initial_size else alloc) needed

-- What `malloc` and the assignments of `string_new` make.
unfoldable pub no_string : StringBuf
no_string = record { cells = []; len = 0; alloc = 0 }

module _ (junk : ℕ) where
  unfoldable pub string_ensure_capacity : StringBuf → ℕ → StringBuf
  string_ensure_capacity str needed = if leb needed str.alloc then str else record str {
    cells = str.cells ++ replicate (new_alloc str.alloc needed - str.alloc) junk;
    alloc = new_alloc str.alloc needed;
  }

  -- A text and the zero behind it, written behind the first `len` bytes.
  unfoldable pub write_text : StringBuf → Bytes → StringBuf
  write_text str val = record str {
    cells = write_at str.cells str.len (val ++ 0 ∷ []);
    len = str.len + length val;
  }

  -- `string_append`
  unfoldable pub string_append : StringBuf → Bytes → StringBuf
  string_append str val = write_text (string_ensure_capacity str (str.len + length val + 1)) val

  unfoldable pub string_new : Option Bytes → StringBuf
  string_new none =
      let str = string_ensure_capacity no_string 1 in record str { cells = set str.cells 0 0 }
  string_new (some init) = write_text (string_ensure_capacity no_string (length init + 1)) init

  -- `string_append_len`, of the bytes at `val`: first they, then the zero.
  unfoldable pub string_append_len : StringBuf → Bytes → ℕ → StringBuf
  string_append_len str val len =
      let grown = string_ensure_capacity str (str.len + len + 1) in
      record grown {
        cells = set (write_at grown.cells grown.len (take len val)) (grown.len + len) 0;
        len = grown.len + len;
      }

  unfoldable pub string_append_c : StringBuf → ℕ → StringBuf
  string_append_c str c =
      let grown = string_ensure_capacity str (str.len + 2) in
      record grown {
        cells = set (set grown.cells grown.len c) (grown.len + 1) 0;
        len = grown.len + 1;
      }

unfoldable pub string_truncate : StringBuf → StringBuf
string_truncate str = record str { cells = set str.cells 0 0; len = 0 }

-- The text that `string_free` hands out.
unfoldable pub contents : StringBuf → Bytes
contents str = take str.len str.cells
