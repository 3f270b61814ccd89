-- ===== src/Flash/Frames.antt =====
-- Whole frames: a read gives the array from the address on, a page program lays its bytes over the page.
use ue2_c64u_emulator.Base.{
  ℕ, zero, suc, ◌+◌, ◌*◌, ◌%◌, ◌≤◌, ◌<◌, ◌≡◌, refl, ap, ap₂, ◌∙◌, arith, bit_or, u32, some, List,
  [], ◌∷◌, replicate, Memory,
}
use ue2_c64u_emulator.Base.Bits.{bit_at-bit_or, bit_or-lt, eq_of_bits}
use ue2_c64u_emulator.Base.Masks.{bit_or_fields, bit_and_mask}
use ue2_c64u_emulator.Flash.Chip.{
  Nor, addr_len, erase_size, start_frame, xfer, data_byte, addressed, read_next, erase, run_command,
  end_frame,
}

-- The bytes of an open frame, and the answers.
unfoldable pub sends : List ℕ → Nor → List ℕ × Nor
sends [] n = ([], n)
sends (b ∷ bs) n = let r = xfer n b in let more = sends bs r.1 in (r.0 ∷ more.0, more.1)

-- A frame from the fall of the chip select to its rise.
unfoldable pub frame : List ℕ → Nor → List ℕ × Nor
frame bs n = let r = sends bs (start_frame n) in (r.0, (end_frame r.1).1)

-- `k` bytes of the array from `a` on, which wraps at its end.
unfoldable pub bytes_from : Memory → ℕ → ℕ → List ℕ
bytes_from mem a zero = []
bytes_from mem a (suc k) = mem (a % 16777216) ∷ bytes_from mem (a + 1) k

shift_in : (x b : ℕ) → x < 16777216 → b < 256 → bit_or (u32 (x * 256)) b ≡ x * 256 + b
shift_in x b h k = ap (λ (t : ℕ). bit_or t b) fits ∙ flipped ∙ omega (arith, bit_or_fields 8 x b k)
  where
    fits : u32 (x * 256) ≡ x * 256
    fits = omega arith

    flipped : bit_or (x * 256) b ≡ bit_or b (x * 256)
    flipped =
        eq_of_bits 32 _ _ (bit_or-lt 32 (x * 256) b (omega arith) (omega arith))
          (bit_or-lt 32 b (x * 256) (omega arith) (omega arith))
          (λ i lt. ground (arith, bit_at-bit_or i (x * 256) b, bit_at-bit_or i b (x * 256)))

pub sends_on :
    (n : Nor) (b : ℕ) (bs : List ℕ) {m k : Nor} {v : ℕ} {vs : List ℕ}
    → ◌≡◌ {A = ℕ × Nor} (xfer n b) (v, m)
    → ◌≡◌ {A = List ℕ × Nor} (sends bs m) (vs, k)
    → ◌≡◌ {A = List ℕ × Nor} (sends (b ∷ bs) n) (v ∷ vs, k)
unfolding sends
sends_on n b bs p q = rw (p, q) refl

module _ (op : ℕ) (three : addr_len op ≡ some 3) where
  xfer_address :
      (n : Nor) (b : ℕ)
      → n.op ≡ some op
      → n.count < 3
      → n.addr < 16777216
      → b < 256
      → (c a : ℕ) → c ≡ n.count + 1
      → a ≡ n.addr * 256 + b
      → ◌≡◌ {A = ℕ × Nor} (xfer n b) (0xff, record n { count = c; addr = a })
  unfolding xfer addressed addr_len
  xfer_address n b o lt h k c a d e = ground (arith, shift_in n.addr b h k)

  -- The opcode and the address of a frame.
  pub opens :
      (n : Nor) (a2 a1 a0 : ℕ) (bs : List ℕ)
      → a2 < 256
      → a1 < 256
      → a0 < 256
      → let m = record n { op = some op; count = 3; addr = a2 * 65536 + a1 * 256 + a0 } in
        ◌≡◌ {A = List ℕ × Nor}
          (sends (op ∷ a2 ∷ a1 ∷ a0 ∷ bs) (start_frame n))
          (0xff ∷ 0xff ∷ 0xff ∷ 0xff ∷ (sends bs m).0, (sends bs m).1)
  opens n a2 a1 a0 bs h2 h1 h0 = sends_on _ _ _ first (
      sends_on _ _ _ (shifts 0 0 a2 a2 h2 (omega arith) (omega arith) (omega arith)) (
        sends_on _ _ _ (shifts 1 a2 a1 (a2 * 256 + a1) h1 (omega arith) (omega arith) (omega arith))
          (sends_on _ _ _
            (shifts 2 (a2 * 256 + a1) a0 (a2 * 65536 + a1 * 256 + a0) h0 (omega arith) (omega arith)
              (omega arith))
            refl)))
    where
      at : ℕ → ℕ → Nor
      at c a = record n { op = some op; count = c; addr = a }

      first : ◌≡◌ {A = ℕ × Nor} (xfer (start_frame n) op) (0xff, at 0 0)
      first = unfold start_frame in unfold xfer in refl

      shifts :
          (c x b y : ℕ)
          → b < 256
          → c < 3
          → x < 16777216
          → y ≡ x * 256 + b
          → ◌≡◌ {A = ℕ × Nor} (xfer (at c x) b) (0xff, at (suc c) y)
      shifts c x b y h lt k e = xfer_address (at c x) b refl lt k h (suc c) y (omega arith) e

xfer_read :
    (n : Nor) (b : ℕ)
    → n.op ≡ some 0x03
    → 3 ≤ n.count
    → ◌≡◌ {A = ℕ × Nor}
        (xfer n b)
        (n.mem (n.addr % 16777216), record n { count = n.count + 1; addr = u32 (n.addr + 1) })
unfolding xfer addressed addr_len data_byte read_next
xfer_read n b o c = ground (arith, bit_and_mask 24 n.addr)

-- What a run of reads leaves.
record Answered (n : Nor) (vs : List ℕ) (r : List ℕ × Nor) : Type 0 where
  answers : r.0 ≡ vs
  same_mem : r.1.mem ≡ n.mem
  same_op : r.1.op ≡ n.op

carry : (n : Nor) (vs : List ℕ) {r s : List ℕ × Nor} → r ≡ s → Answered n vs s → Answered n vs r
carry n vs e h = rw e h

reads :
    (k a : ℕ) (n : Nor)
    → n.op ≡ some 0x03
    → 3 ≤ n.count
    → n.addr ≡ u32 a
    → Answered n (bytes_from n.mem a k) (sends (replicate k 0xff) n)
unfolding bytes_from
reads zero a n o c e = record {
  answers = unfold sends in refl;
  same_mem = unfold sends in refl;
  same_op = unfold sends in refl;
}
reads (suc k) a n o c e =
    let m : Nor = record n { count = n.count + 1; addr = u32 (n.addr + 1) } in
    let more : Answered m (bytes_from n.mem (a + 1) k) (sends (replicate k 0xff) m) =
      reads k (a + 1) m o (omega arith) (omega arith) in
    carry n (bytes_from n.mem a (suc k))
      (sends_on n 0xff (replicate k 0xff) (xfer_read n 0xff o c) refl)
      (record {
        answers = ap₂ (λ (v : ℕ) (vs : List ℕ). v ∷ vs) (ap n.mem (omega arith)) more.answers;
        same_mem = more.same_mem;
        same_op = more.same_op;
      })

end_frame-read : (n : Nor) → n.op ≡ some 0x03 → (end_frame n).1.mem ≡ n.mem
unfolding end_frame run_command erase erase_size
end_frame-read n o = ground arith

-- A READ frame answers with the array's bytes from its address on, after four bytes for the opcode and
-- the address, however many are asked for, and wraps at the end of the array; it changes nothing in
-- the array.
pub read_frame :
    (n : Nor) (a2 a1 a0 k : ℕ)
    → a2 < 256
    → a1 < 256
    → a0 < 256
    → let r = frame (0x03 ∷ a2 ∷ a1 ∷ a0 ∷ replicate k 0xff) n in
      (r.0 ≡ 0xff ∷ 0xff ∷ 0xff ∷ 0xff ∷ bytes_from n.mem (a2 * 65536 + a1 * 256 + a0) k)
      × (r.1.mem ≡ n.mem)
unfolding frame
read_frame n a2 a1 a0 k h2 h1 h0 = rw (opens 0x03 three n a2 a1 a0 (replicate k 0xff) h2 h1 h0) (
  ap (λ (vs : List ℕ). 0xff ∷ 0xff ∷ 0xff ∷ 0xff ∷ vs) all.answers,
  end_frame-read (sends (replicate k 0xff) m).1 all.same_op ∙ all.same_mem,
)
  where
    m : Nor
    m = record n { op = some 0x03; count = 3; addr = a2 * 65536 + a1 * 256 + a0 }

    three : addr_len 0x03 ≡ some 3
    three = unfold addr_len in refl

    all : Answered m (bytes_from n.mem (a2 * 65536 + a1 * 256 + a0) k) (sends (replicate k 0xff) m)
    all = reads k (a2 * 65536 + a1 * 256 + a0) m refl (omega arith) (omega arith)
