-- ===== src/StrUtils/Words.antt =====
-- `ShortToBuf` and `BufToShort`: a 16-bit number in two bytes, the high one first.
use google_test_c_programs.Base.{ℕ, ◌<◌, ◌≡◌, arith}
use google_test_c_programs.Base.Int.{ℤ, pos, negsuc, ◌≤ℤ◌}
use google_test_c_programs.StrUtils.{short_to_buf, buf_to_short}

-- Both values that `ShortToBuf` writes are bytes, and `BufToShort` reads every `short` back from
-- them, the negative ones too.
pub buf_to_short-short_to_buf :
    (v : ℤ)
    → negsuc 32767 ≤ℤ v
    → v ≤ℤ pos 32767
    → ((short_to_buf v).0 < 256)
      × ((short_to_buf v).1 < 256)
      × (buf_to_short (short_to_buf v).0 (short_to_buf v).1 ≡ v)
unfolding short_to_buf buf_to_short
buf_to_short-short_to_buf (pos n) lo hi = (omega arith, omega arith, ground arith)
buf_to_short-short_to_buf (negsuc n) lo hi = (omega arith, omega arith, ground arith)

-- What `BufToShort` reads from two bytes is a `short`, and `ShortToBuf` writes the same bytes again.
pub short_to_buf-buf_to_short :
    (msb lsb : ℕ)
    → msb < 256
    → lsb < 256
    → (negsuc 32767 ≤ℤ buf_to_short msb lsb)
      × (buf_to_short msb lsb ≤ℤ pos 32767)
      × (short_to_buf (buf_to_short msb lsb) ≡ (msb, lsb))
unfolding short_to_buf buf_to_short
short_to_buf-buf_to_short msb lsb hm hl = (ground arith, ground arith, ground arith)

-- The two bytes of a length below 2^15.
pub short_to_buf_pos :
    (n : ℕ) → n < 32768 → buf_to_short (short_to_buf (pos n)).0 (short_to_buf (pos n)).1 ≡ pos n
unfolding short_to_buf buf_to_short
short_to_buf_pos n h = ground arith
