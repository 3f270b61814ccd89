-- ===== src/Flash/Program.antt =====
-- A page program, from its frame to the array.
use ue2_c64u_emulator.Base.{
  ℕ, suc, ◌+◌, ◌-◌, ◌*◌, ◌/◌, ◌%◌, ◌≤◌, ◌<◌, ◌≡◌, ◌↔◌, refl, ap, ◌∙◌, arith, inl, inr, bit_and,
  true, false, ◌==◌, leb, if◌then◌else◌, some, List, [], ◌∷◌, length, get_or, Memory, store,
  Bool-cases,
}
use ue2_c64u_emulator.Base.Masks.{bit_and_mask}
use ue2_c64u_emulator.Flash.Chip.{
  Nor, addr_len, start_frame, xfer, data_byte, addressed, program, run_command, end_frame,
  addr_mask, page_size, not64,
}
use ue2_c64u_emulator.Flash.Changes.{align_page, start-lt}
use ue2_c64u_emulator.Flash.Frames.{sends, frame, sends_on, opens}

xfer_program :
    (n : Nor) (b : ℕ)
    → n.op ≡ some 0x02
    → 3 ≤ n.count
    → ◌≡◌ {A = ℕ × Nor} (xfer n b) (
      0xff,
      record n {
        count = n.count + 1;
        page_buf =
            store
              (if n.count == 3 then (λ i. 0xff) else n.page_buf)
              ((n.addr % 256 + (n.count - 3)) % 256)
              b;
      },
    )
unfolding xfer addressed addr_len data_byte
xfer_program n b o c = ground (arith, bit_and_mask 8 n.addr)

get_or_on :
    (d : ℕ) (ds : List ℕ) (j k x : ℕ) → k < j → get_or (d ∷ ds) (j - k) x ≡ get_or ds (j - suc k) x
get_or_on d ds j k x h = let e : j - k ≡ suc (j - suc k) = omega arith in rw e refl

-- How far behind the address, in the page, the byte `i` lies.
abbrev behind : Nor → ℕ → ℕ
behind n i = (i + 256 - n.addr % 256) % 256

-- What a run of data bytes leaves, the first of them byte `k` of the frame's data.
record Laid (n : Nor) (k : ℕ) (ds : List ℕ) (r : Nor) : Type 0 where
  buffer :
      (i : ℕ)
      → r.page_buf (i % 256) ≡ (
          if leb k (behind n (i % 256))
          then get_or ds (behind n (i % 256) - k) (n.page_buf (i % 256))
          else n.page_buf (i % 256))
  same_op : r.op ≡ n.op
  same_addr : r.addr ≡ n.addr
  same_mem : r.mem ≡ n.mem
  same_wel : r.wel ≡ n.wel
  counted : r.count ≡ n.count + length ds

carry : (n : Nor) (k : ℕ) (ds : List ℕ) {r s : Nor} → r ≡ s → Laid n k ds s → Laid n k ds r
carry n k ds e h = rw e h

Laid-nil : (n : Nor) (k : ℕ) → Laid n k [] (sends [] n).1
Laid-nil n k = record {
  buffer = λ i. unfold sends in ground arith;
  same_op = unfold sends in refl;
  same_addr = unfold sends in refl;
  same_mem = unfold sends in refl;
  same_wel = unfold sends in refl;
  counted = unfold sends in omega arith;
}

get_or_here : (d : ℕ) (ds : List ℕ) (j k x : ℕ) → j ≡ k → get_or (d ∷ ds) (j - k) x ≡ d
get_or_here d ds j k x h = let e : j - k ≡ 0 = omega arith in rw e refl

-- The buffer after a byte and the rest of the bytes, at the place `i` that lies `j` behind the address.
laid_at :
    (buf : Memory) (d : ℕ) (ds : List ℕ) (i j k p b : ℕ)
    → (j ≡ k) ↔ (i ≡ p)
    → b ≡ (if leb (suc k) j then get_or ds (j - suc k) (store buf p d i) else store buf p d i)
    → b ≡ (if leb k j then get_or (d ∷ ds) (j - k) (buf i) else buf i)
unfolding store
laid_at buf d ds i j k p b same h = elim (Bool-cases (leb (suc k) j)) [
  | inl after ↦ ground (arith, get_or_on d ds j k (buf i) (ground arith))
  | inr upto ↦ elim (Bool-cases (j == k)) [
    | inl here ↦ ground (arith, get_or_here d ds j k (buf i) (ground arith))
    | inr before ↦ ground arith
  ]
]

Laid-cons :
    (n : Nor) (k d : ℕ) (ds : List ℕ) (r : Nor)
    → 1 ≤ k
    → k + length ds < 256
    → let m = record n {
      count = n.count + 1;
      page_buf = store n.page_buf ((n.addr % 256 + k) % 256) d;
    } in
      Laid m (suc k) ds r → Laid n k (d ∷ ds) r
Laid-cons n k d ds r one fits h = record {
  buffer = λ i.
      laid_at n.page_buf d ds (i % 256) (behind n (i % 256)) k ((n.addr % 256 + k) % 256) _
        (λ e. omega arith, λ e. omega arith) (h.buffer i);
  same_op = h.same_op;
  same_addr = h.same_addr;
  same_mem = h.same_mem;
  same_wel = h.same_wel;
  counted = omega (arith, h.counted);
}

later :
    (n : Nor) (b k : ℕ)
    → n.op ≡ some 0x02
    → n.count ≡ 3 + k
    → 1 ≤ k
    → ◌≡◌ {A = ℕ × Nor} (xfer n b) (
      0xff,
      record n { count = n.count + 1; page_buf = store n.page_buf ((n.addr % 256 + k) % 256) b },
    )
later n b k o c one = xfer_program n b o (omega arith) ∙ rw (beyond, offset) refl
  where
    beyond : (n.count == 3) ≡ false
    beyond = ground arith

    offset : n.count - 3 ≡ k
    offset = omega arith

lays :
    (ds : List ℕ) (n : Nor) (k : ℕ)
    → n.op ≡ some 0x02
    → n.count ≡ 3 + k
    → 1 ≤ k
    → k + length ds ≤ 256
    → Laid n k ds (sends ds n).1
lays [] n k o c one fits = Laid-nil n k
lays (d ∷ ds) n k o c one fits =
    let m : Nor = record n {
      count = n.count + 1;
      page_buf = store n.page_buf ((n.addr % 256 + k) % 256) d;
    } in
    carry n k (d ∷ ds) (ap (λ (r : List ℕ × Nor). r.1) (sends_on n d ds (later n d k o c one) refl))
      (Laid-cons n k d ds (sends ds m).1 one (omega arith)
        (lays ds m (suc k) o (omega arith) (omega arith) (omega arith)))

end_frame-program :
    (n : Nor)
    → n.op ≡ some 0x02
    → n.wel ≡ true
    → 3 < n.count
    → ◌≡◌ {A = Memory}
        (end_frame n).1.mem
        (program n.mem n.page_buf (bit_and (bit_and n.addr addr_mask) (not64 (page_size - 1))))
unfolding end_frame run_command addr_len
end_frame-program n o w c = ground arith

from_start :
    (xs : List ℕ) (j i : ℕ)
    → j ≡ i
    → (if leb 0 j then get_or xs (j - 0) 0xff else 0xff) ≡ get_or xs i 0xff
from_start xs j i e =
    let same : j - 0 ≡ i = omega arith in ground (arith, ap (λ (t : ℕ). get_or xs t 0xff) same)

-- The array where a buffer is laid over the page `q`.
program_at :
    (mem buf : Memory) (page q x v : ℕ)
    → page ≡ q * 256
    → buf (x % 256) ≡ v
    → program mem buf page x ≡ (if x / 256 == q then bit_and (mem x) v else mem x)
unfolding program
program_at mem buf page q x v e h = elim (Bool-cases (x / 256 == q)) [
  | inl in_page ↦
      let here : x - page ≡ x % 256 = ground arith in
      ground (arith, ap (λ (t : ℕ). bit_and (mem x) (buf t)) here, ap (bit_and (mem x)) h)
  | inr beside ↦ ground arith
]

-- A page program frame with the write enable set lays its bytes over the page that holds the address,
-- from the address on and round the page's end: in each cell the bits that the byte has clear are
-- cleared. Every other byte of the array stays.
pub program_frame :
    (n : Nor) (a2 a1 a0 d : ℕ) (ds : List ℕ) (x : ℕ)
    → a2 < 256
    → a1 < 256
    → a0 < 256
    → length ds < 256
    → n.wel ≡ true
    → (frame (0x02 ∷ a2 ∷ a1 ∷ a0 ∷ d ∷ ds) n).1.mem x ≡ (
        if x / 256 == a2 * 256 + a1
        then bit_and (n.mem x) (get_or (d ∷ ds) ((x % 256 + 256 - a0) % 256) 0xff)
        else n.mem x)
unfolding frame
program_frame n a2 a1 a0 d ds x h2 h1 h0 fits w =
    ap (λ (t : Nor). (end_frame t).1.mem x) whole
    ∙ ap (λ (f : Memory). f x)
        (end_frame-program t laid.same_op (laid.same_wel ∙ w) (omega (arith, laid.counted)))
    ∙ program_at t.mem t.page_buf _ (a2 * 256 + a1) x _ page laid_byte
    ∙ ap
        (λ (f : Memory).
          if x / 256 == a2 * 256 + a1
          then bit_and (f x) (get_or (d ∷ ds) ((x % 256 + 256 - a0) % 256) 0xff)
          else f x)
        laid.same_mem
  where
    a : ℕ
    a = a2 * 65536 + a1 * 256 + a0

    m : Nor
    m = record n { op = some 0x02; count = 3; addr = a }

    f : Nor
    f = record m { count = 3 + 1; page_buf = store (λ i. 0xff) ((a % 256 + (3 - 3)) % 256) d }

    t : Nor
    t = (sends ds f).1

    three : addr_len 0x02 ≡ some 3
    three = unfold addr_len in refl

    whole : (sends (0x02 ∷ a2 ∷ a1 ∷ a0 ∷ d ∷ ds) (start_frame n)).1 ≡ t
    whole =
        ap (λ (r : List ℕ × Nor). r.1) (opens 0x02 three n a2 a1 a0 (d ∷ ds) h2 h1 h0)
        ∙ ap (λ (r : List ℕ × Nor). r.1)
            (sends_on m d ds (xfer_program m d refl (omega arith)) refl)

    laid : Laid f 1 ds t
    laid = lays ds f 1 refl (omega arith) (omega arith) (omega arith)

    page : bit_and (bit_and t.addr addr_mask) (not64 (page_size - 1)) ≡ (a2 * 256 + a1) * 256
    page = omega (
      arith,
      laid.same_addr,
      bit_and_mask 24 t.addr,
      align_page (bit_and t.addr addr_mask) (start-lt t.addr),
    )

    behind_lem : behind f (x % 256) ≡ (x % 256 + 256 - a0) % 256
    behind_lem = omega arith

    laid_byte : t.page_buf (x % 256) ≡ get_or (d ∷ ds) ((x % 256 + 256 - a0) % 256) 0xff
    laid_byte =
        laid_at (λ i. 0xff) d ds (x % 256) (behind f (x % 256)) 0 ((a % 256 + (3 - 3)) % 256) _
          (λ e. omega arith, λ e. omega arith) (laid.buffer x)
        ∙ from_start (d ∷ ds) (behind f (x % 256)) _ behind_lem
