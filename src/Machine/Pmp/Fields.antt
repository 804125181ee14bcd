-- ===== src/Machine/Pmp/Fields.antt =====
-- pmpcfg_write changes the byte of its entry in the packed register and no other byte.
use serval_sosp.Base.{
  ℕ, ◌*◌, ◌/◌, ◌^◌, ◌<◌, ◌≡◌, refl, ap, sym, ◌∙◌, ◌≢◌, true, ◌==◌, ==_iff, lt→ltb, if◌then◌else◌,
  bit_and, bit_or, arith,
}
use native.Mathlib.Nat.{mod-eq_of_lt}
use serval_sosp.Base.Bits.{not64, all_below, all_below_sound}
use serval_sosp.Base.Word.{shl64}
use serval_sosp.Base.Digits.{byte, bit_and-byte, bit_or-byte, bit_and-255, byte_ops, bit_and-zero}
use serval_sosp.Machine.Csr.{Machine, csr_set, csr_clear, pmpcfg0}
use serval_sosp.Machine.Pmp.{pmpcfg_read, pmpcfg_write}

mask_table :
    all_below 8
      (λ n. all_below 8 (λ k. byte k (not64 (shl64 0xff (n * 8))) == (if n == k then 0 else 255)))
    ≡ true
unfolding all_below
mask_table = refl

value_table :
    all_below 8 (λ n.
      all_below 8 (λ k. all_below 256 (λ v. byte k (shl64 v (n * 8)) == (if n == k then v else 0))))
    ≡ true
unfolding all_below
value_table = refl

mask_byte :
    (n k : ℕ) → n < 8 → k < 8 → byte k (not64 (shl64 0xff (n * 8))) ≡ (if n == k then 0 else 255)
mask_byte n k hn hk =
    (==_iff _ _).0 (all_below_sound 8 _ k (all_below_sound 8 _ n mask_table hn) hk)

value_byte :
    (n k v : ℕ) → n < 8 → k < 8 → v < 256 → byte k (shl64 v (n * 8)) ≡ (if n == k then v else 0)
value_byte n k v hn hk hv =
    (==_iff _ _).0
      (all_below_sound 256 _ v (all_below_sound 8 _ k (all_below_sound 8 _ n value_table hn) hk) hv)

-- The packed register, a byte replaced.
replaced :
    (x n k v : ℕ)
    → n < 8
    → k < 8
    → v < 256
    → byte k (bit_or (bit_and x (not64 (shl64 0xff (n * 8)))) (shl64 v (n * 8)))
      ≡ (if n == k then v else byte k x)
replaced x n k v hn hk hv = ground (
  arith,
  bit_or-byte k (bit_and x (not64 (shl64 0xff (n * 8)))) (shl64 v (n * 8)),
  bit_and-byte k x (not64 (shl64 0xff (n * 8))),
  mask_byte n k hn hk,
  value_byte n k v hn hk hv,
  byte_ops v hv,
  byte_ops (byte k x) (omega arith),
  bit_and-zero (byte k x),
)

reads_byte : (m : Machine) (k : ℕ) → k < 8 → pmpcfg_read m k ≡ byte k (m.csr pmpcfg0)
unfolding pmpcfg_read
reads_byte m k h = ground (arith, bit_and-255 (m.csr pmpcfg0 / 2 ^ (k * 8)))

written :
    (m : Machine) (n v : ℕ)
    → n < 8
    → (pmpcfg_write m n v).csr pmpcfg0
      ≡ bit_or (bit_and (m.csr pmpcfg0) (not64 (shl64 0xff (n * 8)))) (shl64 v (n * 8))
unfolding pmpcfg_write csr_set csr_clear
written m n v h = rw (lt→ltb n 8 h) (rw (mod-eq_of_lt h) refl)

-- A write of an entry's configuration is what is read back, and the other entries keep theirs.
pub pmpcfg_read-pmpcfg_write :
    (m : Machine) (n k v : ℕ)
    → n < 8
    → k < 8
    → v < 256
    → pmpcfg_read (pmpcfg_write m n v) k ≡ (if n == k then v else pmpcfg_read m k)
pmpcfg_read-pmpcfg_write m n k v hn hk hv = ground (
  arith,
  reads_byte (pmpcfg_write m n v) k hk,
  reads_byte m k hk,
  replaced (m.csr pmpcfg0) n k v hn hk hv,
  written m n v hn,
)

-- Address registers are other registers.
pub pmpcfg_write-csr :
    (m : Machine) (n v c : ℕ) → n < 8 → c ≢ pmpcfg0 → (pmpcfg_write m n v).csr c ≡ m.csr c
unfolding pmpcfg_write csr_set csr_clear
pmpcfg_write-csr m n v c h ne = ground arith

-- The fields of the first eight entries lie in one register.
pub pmpcfg_read-same :
    (m n : Machine) (k : ℕ)
    → k < 8
    → m.csr pmpcfg0 ≡ n.csr pmpcfg0
    → pmpcfg_read m k ≡ pmpcfg_read n k
pmpcfg_read-same m n k h e = reads_byte m k h ∙ ap (byte k) e ∙ sym (reads_byte n k h)
