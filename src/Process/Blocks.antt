-- ===== src/Process/Blocks.antt =====
-- `mut_process_memcpy` and `mut_process_memset` of src/proc/ptrace/mut_process.c, a word at a time.
use Prim.Native.Nat.{bit_and, bit_or}
use mut.Base.{
  ℕ, zero, suc, ◌-◌, ◌*◌, ◌/◌, ◌%◌, ◌^◌, Cmd, pure, assert, ◌>>=◌, ◌>>◌, if◌then◌else◌, ◌==◌, add32,
}
use mut.Machine.{Os, Machine}
use mut.Trace.{trace_read_data, trace_write_data}
use mut.Process.X86.{assert_stopped}

-- `mut_process_byte_mask`
unfoldable pub byte_mask : ℕ → ℕ
byte_mask nbytes = 2 ^ ((4 - nbytes) * 8) - 1

-- `c | (c<<8) | (c<<16) | (c<<24)`
unfoldable pub pattern_of : ℕ → ℕ
pattern_of c =
    bit_or (bit_or (bit_or c (c * 2 ^ 8 % 2 ^ 32)) (c * 2 ^ 16 % 2 ^ 32)) (c * 2 ^ 24 % 2 ^ 32)

module _ {W : Type 0} (os : Os W) where
  -- The loop over whole words; its result is where the two pointers end.
  unfoldable pub memcpy_words : ℕ → (dest src : ℕ) → Cmd (Machine W) (ℕ × ℕ)
  memcpy_words zero dest src = pure (dest, src)
  memcpy_words (suc nwords) dest src = do
    word ← trace_read_data os src
    trace_write_data os dest word
    memcpy_words nwords (add32 dest 4) (add32 src 4)

  unfoldable pub memcpy_tail : ℕ → (dest src : ℕ) → Cmd (Machine W) (Unit {0})
  memcpy_tail nbytes dest src = if nbytes == 0 then pure tt else (do
    orig ← trace_read_data os dest
    word ← trace_read_data os src
    trace_write_data os dest (bit_or word (bit_and orig (byte_mask nbytes))))

  unfoldable pub memcpy : (dest src n : ℕ) → Cmd (Machine W) (Unit {0})
  memcpy dest src n = do
    assert_stopped os
    assert (dest % 4 == 0)
    assert (src % 4 == 0)
    (dest', src') ← memcpy_words (n / 4) dest src
    memcpy_tail (n % 4) dest' src'

  unfoldable pub memset_words : ℕ → (addr word : ℕ) → Cmd (Machine W) ℕ
  memset_words zero addr word = pure addr
  memset_words (suc nwords) addr word = do
    trace_write_data os addr word
    memset_words nwords (add32 addr 4) word

  unfoldable pub memset_tail : ℕ → (addr word : ℕ) → Cmd (Machine W) (Unit {0})
  memset_tail nbytes addr word = if nbytes == 0 then pure tt else (do
    orig ← trace_read_data os addr
    trace_write_data os addr (bit_or word (bit_and orig (byte_mask nbytes))))

  unfoldable pub memset : (addr c n : ℕ) → Cmd (Machine W) (Unit {0})
  memset addr c n = do
    assert_stopped os
    assert (addr % 4 == 0)
    addr' ← memset_words (n / 4) addr (pattern_of c)
    memset_tail (n % 4) addr' (pattern_of c)
